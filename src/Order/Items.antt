-- ===== src/Order/Items.antt =====
-- The items of a checkout, as the stock service gets them.
use dds.Base.{
  String, ◌==◌, eq_iff, ◌≡◌, ◌≢◌, refl, sym, ap, ◌∙◌, none, List, [], ◌∷◌, arith, Bool-cases, inl,
  inr, if◌then◌else◌,
}
use dds.Base.Int.{ℤ, pos, ◌+ℤ◌, +ℤ_parts, eq_of_parts, +ℤ_assoc, +ℤ_zero, zero_+ℤ}
use dds.Base.Dict.{Dict, lookup, insert, lookup-insert}
use dds.Stock.Levels.{demand}
use dds.Stock.Stored.{Fresh}
use dds.Order.{quantity_of, add_quantities, aggregated_items}

-- No key stands twice in the dict.
abbrev Unique : Dict ℤ → Type 0
Unique [] = Unit
Unique ((k, v) ∷ d) = (lookup k d ≡ none) × Unique d

insert-Unique : (k : String) (v : ℤ) (d : Dict ℤ) → Unique d → Unique (insert k v d)
unfolding insert lookup
insert-Unique k v [] u = (refl, tt)
insert-Unique k v ((j, w) ∷ d) u = elim (Bool-cases (j == k)) [
  | inl same ↦ rw same u
  | inr apart ↦ rw apart (
    rw (lookup-insert k j v d) (ground (arith, u.0, eq_iff k j, eq_iff j k)),
    insert-Unique k v d u.1,
  )
]

add_quantities-Unique :
    (items : List (String × ℤ)) (d : Dict ℤ) → Unique d → Unique (add_quantities items d)
unfolding add_quantities
add_quantities-Unique [] d u = u
add_quantities-Unique ((id, q) ∷ rest) d u =
    add_quantities-Unique rest (insert id (quantity_of (lookup id d) +ℤ q) d)
      (insert-Unique id _ d u)

Unique-Fresh :
    (d stored : Dict ℤ)
    → Unique d
    → ((k : String) → lookup k d ≢ none → lookup k stored ≡ none)
    → Fresh stored d
unfolding lookup
Unique-Fresh [] stored u apart = tt
Unique-Fresh ((i, a) ∷ d) stored u apart = (
  apart i (λ e. ground (arith, e, eq_iff i i)),
  Unique-Fresh d (insert i a stored) u.1
      (λ k h. rw (lookup-insert i k a stored) (ground (arith, apart k, h, u.0, eq_iff i k))),
)

shifted : (a q later : ℤ) → (a +ℤ q) +ℤ later ≡ (a +ℤ later) +ℤ (q +ℤ pos 0)
shifted a q later = eq_of_parts _ _ (
    omega (
      arith,
      +ℤ_parts a q,
      +ℤ_parts (a +ℤ q) later,
      +ℤ_parts a later,
      +ℤ_parts q (pos 0),
      +ℤ_parts (a +ℤ later) (q +ℤ pos 0),
    ))

-- Adding a quantity adds it to what is asked for.
demand-add :
    (j id : String) (q v : ℤ) (d : Dict ℤ)
    → quantity_of (lookup id d) ≡ v
    → demand j (insert id (v +ℤ q) d) ≡ demand j d +ℤ (if id == j then q +ℤ pos 0 else pos 0)
unfolding demand insert lookup
demand-add j id q v [] h = elim (Bool-cases (id == j)) [
  | inl here ↦ rw (← h, here) (ap (λ x. x +ℤ pos 0) (zero_+ℤ q) ∙ sym (zero_+ℤ (q +ℤ pos 0)))
  | inr elsewhere ↦ rw elsewhere (sym (zero_+ℤ (pos 0)))
]
demand-add j id q v ((k, a) ∷ d) h = elim (Bool-cases (k == id)) [
  | inl same ↦
      let at_id : (k == j) ≡ (id == j) = ap (λ x. x == j) ((eq_iff k id).0 same) in
      let held : a ≡ v = rw same at h in
      rw (same, at_id, ← held)
        (elim (Bool-cases (id == j)) [
          | inl here ↦ rw here (shifted a q (demand j d))
          | inr elsewhere ↦ rw elsewhere (sym (+ℤ_zero (demand j d)))
        ])
  | inr apart ↦
      let ih = demand-add j id q v d (rw apart at h) in
      rw apart (elim (Bool-cases (k == j)) [
        | inl here ↦ rw here (ap (λ x. a +ℤ x) ih ∙ sym (+ℤ_assoc a (demand j d) _))
        | inr elsewhere ↦ rw elsewhere ih
      ])
]

one_more :
    (j id : String) (q : ℤ) (rest : List (String × ℤ))
    → (if id == j then q +ℤ pos 0 else pos 0) +ℤ demand j rest ≡ demand j ((id, q) ∷ rest)
unfolding demand
one_more j id q rest = elim (Bool-cases (id == j)) [
  | inl here ↦ rw here (ap (λ x. x +ℤ demand j rest) (+ℤ_zero q))
  | inr elsewhere ↦ rw elsewhere (zero_+ℤ (demand j rest))
]

demand-add_quantities :
    (j : String) (items : List (String × ℤ)) (d : Dict ℤ)
    → demand j (add_quantities items d) ≡ demand j d +ℤ demand j items
unfolding add_quantities
demand-add_quantities j [] d = unfold demand in sym (+ℤ_zero (demand j d))
demand-add_quantities j ((id, q) ∷ rest) d =
    demand-add_quantities j rest (insert id (quantity_of (lookup id d) +ℤ q) d)
    ∙ ap (λ x. x +ℤ demand j rest) (demand-add j id q (quantity_of (lookup id d)) d refl)
    ∙ +ℤ_assoc (demand j d) _ (demand j rest)
    ∙ ap (λ x. demand j d +ℤ x) (one_more j id q rest)

-- A checkout asks the stock service for items with different names, and for as much of each as the order
-- lists in all of its lines.
pub aggregation_is_exact :
    (items : List (String × ℤ)) (j : String)
    → Fresh [] (aggregated_items items) × (demand j (aggregated_items items) ≡ demand j items)
unfolding aggregated_items
aggregation_is_exact items j = (
  Unique-Fresh (add_quantities items []) [] (add_quantities-Unique items [] tt)
      (λ k h. unfold lookup in refl),
  demand-add_quantities j items [] ∙ unfold demand in zero_+ℤ _,
)
