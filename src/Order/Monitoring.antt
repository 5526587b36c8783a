-- ===== src/Order/Monitoring.antt =====
-- order/app.py: `health` and `dlq_status`. The ids that Redis gives to the entries of a stream are left out.
use dds.Base.{ℕ, zero, suc, String, Option, none, some, List, [], ◌∷◌, length, reverse}
use dds.Orchestrator.System.{DlqEntry}

-- a healthy service, or the 503 of a ping that raises
pub data Health : Type 0 where
  healthy redis_unavailable : Health

unfoldable pub health : Option String → Health
health none = Health.healthy
health (some error) = Health.redis_unavailable

-- XREVRANGE with a count, after the reversal
unfoldable pub first_of : {A : Type 0} → ℕ → List A → List A
first_of zero xs = []
first_of (suc n) [] = []
first_of (suc n) (x ∷ xs) = x ∷ first_of n xs

-- dlq_status: the number of entries, and the ten latest, the latest first
unfoldable pub dlq_status : List DlqEntry → ℕ × List DlqEntry
dlq_status dlq = (length dlq, first_of 10 (reverse dlq))
