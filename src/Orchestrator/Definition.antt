-- ===== src/Orchestrator/Definition.antt =====
-- orchestrator/definition.py: the steps of a transaction.
use dds.Base.{String, Option, List}
use dds.Orchestrator.Value.{Context}

-- `payload_builder(saga_id, action, context)` returns the fields that it adds to a command.
pub record Step : Type 0 where
  pub name : String
  pub service : String
  pub payload_builder : Option (String → String → Context → Context)

pub record TransactionDefinition : Type 0 where
  pub name : String
  pub steps : List Step
