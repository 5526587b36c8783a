-- ===== src/Orchestrator/Value.antt =====
-- The values that a Python dict of this program holds: contexts, payloads and WAL data.
-- `json.dumps` followed by `json.loads` gives such a value back.
use dds.Base.{String, Option, some, List}
use dds.Base.Int.{ℤ}
use dds.Base.Dict.{Dict, lookup}

pub data Value : Type 0 where
  text : String → Value
  number : ℤ → Value
  flag : Value
  names : List String → Value
  items : List (String × ℤ) → Value

abbrev pub Context : Type 0
Context = Dict Value

abbrev text_or : String → Option Value → String
text_or d (some (text s)) = s
text_or d _ = d

-- data.get(key, d), where the value is a text
unfoldable pub get_text : String → String → Context → String
get_text key d data_dict = text_or d (lookup key data_dict)
