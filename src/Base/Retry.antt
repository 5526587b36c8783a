-- ===== src/Base/Retry.antt =====
-- A call that is tried a number of times, with something done between two attempts.
use dds.Base.{
  ℕ, zero, suc, ◌+◌, ◌<◌, String, ◌≡◌, ◌≢◌, refl, ap, ◌∙◌, Option, none, some, arith, Option-cases,
  inl, inr,
}

-- Available at some attempt, given up with the last error, or not tried at all.
pub data Attempted : Type 0 where
  ready : ℕ → Attempted
  gave_up : String → Attempted
  untried : Attempted

module _ {W : Type 0} (try : W → Option String × W) (between : W → W) where
  -- the attempts that are left, and the number of the next one
  unfoldable pub attempts : ℕ → ℕ → W → Attempted × W
  attempts zero k w = (Attempted.untried, w)
  attempts (suc zero) k w =
      let (error, w') = try w in
      elim error [ none ↦ (Attempted.ready k, w') | some e ↦ (Attempted.gave_up e, w') ]
  attempts (suc (suc left)) k w =
      let (error, w') = try w in
      elim error [
        | none ↦ (Attempted.ready k, w')
        | some e ↦ attempts (suc left) (k + 1) (between w')
      ]

  -- the world after some failing attempts
  abbrev pub after : ℕ → W → W
  after zero w = w
  after (suc n) w = after n (between (try w).1)

  -- The first attempts all fail.
  abbrev pub AllFail : ℕ → W → Type 0
  AllFail zero w = Unit
  AllFail (suc n) w = ((try w).0 ≢ none) × AllFail n (between (try w).1)

  pub attempts-ready :
      (retries n k : ℕ) (w : W)
      → n < retries
      → AllFail n w
      → (try (after n w)).0 ≡ none
      → attempts retries k w ≡ (Attempted.ready (k + n), (try (after n w)).1)
  unfolding attempts
  attempts-ready zero n k w h f e = absurd (omega arith)
  attempts-ready (suc zero) zero k w h f e =
      rw (attempts, e) (ap (λ m. (Attempted.ready m, _)) (omega arith))
  attempts-ready (suc zero) (suc n) k w h f e = absurd (omega arith)
  attempts-ready (suc (suc left)) zero k w h f e =
      rw (attempts, e) (ap (λ m. (Attempted.ready m, _)) (omega arith))
  attempts-ready (suc (suc left)) (suc n) k w h f e = elim (Option-cases (try w).0) [
    | inl up ↦ absurd (f.0 up)
    | inr (error, down) ↦
        rw (attempts, down)
          (attempts-ready (suc left) n (k + 1) (between (try w).1) (omega arith) f.1 e
            ∙ ap (λ m. (Attempted.ready m, (try (after (suc n) w)).1)) (omega arith))
  ]

  pub attempts-gave_up :
      (n k : ℕ) (w : W) (error : String)
      → AllFail n w
      → (try (after n w)).0 ≡ some error
      → attempts (suc n) k w ≡ (Attempted.gave_up error, (try (after n w)).1)
  unfolding attempts
  attempts-gave_up zero k w error f e = rw (attempts, e) refl
  attempts-gave_up (suc n) k w error f e = elim (Option-cases (try w).0) [
    | inl up ↦ absurd (f.0 up)
    | inr (other, down) ↦
        rw (attempts, down) (attempts-gave_up n (k + 1) (between (try w).1) error f.1 e)
  ]
