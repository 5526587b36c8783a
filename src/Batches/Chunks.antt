-- ===== src/Batches/Chunks.antt =====
-- The chunks against one loop over all keys.
use dds.Base.{
  ℕ, zero, suc, ◌+◌, ◌-◌, ◌≤◌, ◌<◌, ◌≡◌, refl, sym, ap, ◌∙◌, true, Bool-cases, inl, inr, arith, ltb,
  leb,
}
use dds.Batches.{Executed, set_keys, chunk, chunks, batch_init}

module _ {S : Type 0} (set_key : ℕ → S → S) where
  set_keys-add :
      (a b start : ℕ) (s : S)
      → set_keys set_key b (start + a) (set_keys set_key a start s)
        ≡ set_keys set_key (a + b) start s
  unfolding set_keys
  set_keys-add zero b start s =
      let here : start + 0 ≡ start = omega arith in
      let both : 0 + b ≡ b = omega arith in rw (here, both) refl
  set_keys-add (suc a) b start s =
      let there : start + suc a ≡ start + 1 + a = omega arith in
      let both : suc a + b ≡ suc (a + b) = omega arith in
      rw (there, both) (set_keys-add a b (start + 1) (set_key start s))

  none_left : (a start : ℕ) (s : S) → a ≡ 0 → set_keys set_key a start s ≡ s
  unfolding set_keys
  none_left a start s e = rw e refl

  module _ (pipe : ℕ → Executed) (all_done : (start : ℕ) → pipe start ≡ Executed.done) where
    chunks-set_keys :
        (f start n size : ℕ) (s : S)
        → n - start ≤ f
        → 0 < size
        → chunks set_key pipe f start n size s ≡ (true, set_keys set_key (n - start) start s)
    unfolding chunks
    chunks-set_keys zero start n size s h positive =
        ap (λ x. (true, x)) (sym (none_left (n - start) start s (omega arith)))
    chunks-set_keys (suc f) start n size s h positive = elim (Bool-cases (ltb start n)) [
      | inr past ↦
          rw past (ap (λ x. (true, x)) (sym (none_left (n - start) start s (ground arith))))
      | inl more ↦ elim (Bool-cases (leb (start + size) n)) [
        | inl whole ↦
            let count : start + size - start ≡ size = omega arith in
            rw (more, all_done start, chunk, whole, count)
              (chunks-set_keys f (start + size) n size (set_keys set_key size start s)
                  (ground arith) positive
                ∙ ap (λ x. (true, x))
                    (set_keys-add size (n - (start + size)) start s
                      ∙ ap (λ k. set_keys set_key k start s) (ground arith)))
        | inr part ↦
            rw (more, all_done start, chunk, part)
              (chunks-set_keys f (start + size) n size (set_keys set_key (n - start) start s)
                  (ground arith) positive
                ∙ ap (λ x. (true, x)) (none_left (n - (start + size)) _ _ (ground arith)))
      ]
    ]

    -- If every pipeline is executed, a batch of `n` keys in chunks of any positive size answers success, and
    -- sets the keys from 0 to n - 1, each once and in this order.
    pub batch_sets_each_key :
        (n size : ℕ) (s : S)
        → 0 < size
        → batch_init set_key pipe n size s ≡ (true, set_keys set_key n 0 s)
    unfolding batch_init
    batch_sets_each_key n size s positive =
        chunks-set_keys n 0 n size s (omega arith) positive
        ∙ ap (λ k. (true, set_keys set_key k 0 s)) (omega arith)
