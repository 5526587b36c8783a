-- ===== src/Batches.antt =====
-- The loops of the three `batch_init_users` (order/app.py, payment/app.py, stock/app.py): the keys in chunks,
-- each with one pipeline. What a key is set to is a parameter, and so is what becomes of each pipeline.
pub mod Chunks
use dds.Base.{ℕ, zero, suc, ◌+◌, ◌-◌, Bool, true, false, ltb, leb, if◌then◌else◌}

-- BATCH_INIT_CHUNK_SIZE, from the number in the environment
abbrev pub chunk_size : ℕ → ℕ
chunk_size n = if leb n 1 then 1 else n

-- A pipeline is executed, or it raises when some of its commands have taken effect.
pub data Executed : Type 0 where
  done : Executed
  raised : ℕ → Executed

abbrev pub smaller : ℕ → ℕ → ℕ
smaller a b = if leb a b then a else b

module _ {S : Type 0} (set_key : ℕ → S → S) where
  -- for i in range(start, start + count)
  unfoldable pub set_keys : ℕ → ℕ → S → S
  set_keys zero start s = s
  set_keys (suc count) start s = set_keys count (start + 1) (set_key start s)

  module _ (pipe : ℕ → Executed) where
    -- one chunk, and the others if its pipeline is executed
    abbrev pub chunk : Executed → ℕ → ℕ → S → (S → Bool × S) → Bool × S
    chunk Executed.done count start s rest = rest (set_keys count start s)
    chunk (Executed.raised k) count start s rest = (false, set_keys (smaller k count) start s)

    -- for chunk_start in range(0, n, BATCH_INIT_CHUNK_SIZE), on fuel: `n` rounds are enough
    unfoldable pub chunks : ℕ → ℕ → ℕ → ℕ → S → Bool × S
    chunks zero start n size s = (true, s)
    chunks (suc f) start n size s =
        let count = smaller (start + size) n - start in
        let rest = chunk (pipe start) count start s (λ s'. chunks f (start + size) n size s') in
        if ltb start n then rest else (true, s)

    -- batch_init_users: whether it answers success
    unfoldable pub batch_init : ℕ → ℕ → S → Bool × S
    batch_init n size s = chunks n 0 n size s
