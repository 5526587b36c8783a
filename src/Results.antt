-- ===== src/Results.antt =====
-- common/result.py: `wait_for_result`. What the key of the result holds is given at each read: before and
-- after the subscription, at each turn of the loop until the time is up, together with whether a message had
-- come, and at the end.
use dds.Base.{◌≡◌, refl, Bool, true, false, Option, none, some, List, [], ◌∷◌, All, ◌⊎◌, inl, inr}

-- a result, or {"status": "failed", "error": "timeout"}
pub data Waited (R : Type 0) : Type 0 where
  result : R → Waited R
  timed_out : Waited R

module _ {R : Type 0} where
  abbrev pub last_look : Option R → Waited R
  last_look none = Waited.timed_out
  last_look (some r) = Waited.result r

  -- the loop: the key is read only if there is a message
  unfoldable pub block : List (Bool × Option R) → Option R → Waited R
  block [] final = last_look final
  block ((false, held) ∷ turns) final = block turns final
  block ((true, none) ∷ turns) final = block turns final
  block ((true, some r) ∷ turns) final = Waited.result r

  abbrev pub subscribed : Option R → List (Bool × Option R) → Option R → Waited R
  subscribed none turns final = block turns final
  subscribed (some r) turns final = Waited.result r

  -- wait_for_result
  unfoldable pub wait_for_result :
      Option R → Option R → List (Bool × Option R) → Option R → Waited R
  wait_for_result none second turns final = subscribed second turns final
  wait_for_result (some r) second turns final = Waited.result r

  -- What is read is not there yet, or stays.
  abbrev pub Stays : Option R → Option R → Type 0
  Stays final held = (held ≡ none) ⊎ (held ≡ final)

  abbrev pub StaysIn : Option R → Bool × Option R → Type 0
  StaysIn final (message, held) = Stays final held

  block-last_look :
      (turns : List (Bool × Option R)) (final : Option R)
      → All (StaysIn final) turns
      → block turns final ≡ last_look final
  unfolding block
  block-last_look [] final h = refl
  block-last_look ((false, held) ∷ turns) final h = block-last_look turns final h.1
  block-last_look ((true, none) ∷ turns) final h = block-last_look turns final h.1
  block-last_look ((true, some r) ∷ turns) final (inl e, h) = cc
  block-last_look ((true, some r) ∷ turns) final (inr e, h) = rw (← e) refl

  -- If a result that the key once holds stays, then the wait ends with what the key holds in the end, with
  -- the result if there is one then and with a timeout if there is none, whichever messages arrive or are
  -- lost.
  pub no_result_is_missed :
      (first second : Option R) (turns : List (Bool × Option R)) (final : Option R)
      → Stays final first
      → Stays final second
      → All (StaysIn final) turns
      → wait_for_result first second turns final ≡ last_look final
  unfolding wait_for_result
  no_result_is_missed none none turns final f s h = block-last_look turns final h
  no_result_is_missed none (some r) turns final f (inl e) h = cc
  no_result_is_missed none (some r) turns final f (inr e) h = rw (← e) refl
  no_result_is_missed (some r) second turns final (inl e) s h = cc
  no_result_is_missed (some r) second turns final (inr e) s h = rw (← e) refl
