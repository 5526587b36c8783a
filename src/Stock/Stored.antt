-- ===== src/Stock/Stored.antt =====
-- What the scripts store of the items of a command, and what that says of the levels.
use dds.Base.{
  String, ◌==◌, eq_iff, eq_refl, ◌≡◌, refl, sym, ap, ◌∙◌, true, false, Option, none, some, List, [],
  ◌∷◌, arith, Bool-cases, inl, inr,
}
use dds.Base.Int.{
  ℤ, pos, ◌+ℤ◌, ◌≤ℤ◌, pos_part, neg_part, ltb_ℤ, +ℤ_parts, +ℤ_assoc, +ℤ_zero, zero_+ℤ,
}
use dds.Base.Dict.{Dict, lookup, insert, lookup-insert}
use dds.Stock.{Item, hincrby, available, is_short, enough, take_all, record_all, give, give_back}
use dds.Stock.Levels.{or_zero, level, demand, level-hincrby, level-take_all}

-- The items are told apart by their names, and none of them is stored yet.
abbrev pub Fresh : Dict ℤ → List (String × ℤ) → Type 0
Fresh stored [] = Unit
Fresh stored ((id, amount) ∷ rest) =
    (lookup id stored ≡ none) × Fresh (insert id amount stored) rest

-- Every item of the list is stored with its amount.
abbrev pub Stored : Dict ℤ → List (String × ℤ) → Type 0
Stored stored [] = Unit
Stored stored ((id, amount) ∷ rest) = (lookup id stored ≡ some amount) × Stored stored rest

-- What is given back for items that are stored is what they ask for.
pub level-give_back :
    (j : String) (items : List (String × ℤ)) (stored : Dict ℤ) (d : Dict Item)
    → Stored stored items
    → level j (give_back items stored d) ≡ level j d +ℤ demand j items
unfolding give_back demand
level-give_back j [] stored d h = sym (+ℤ_zero (level j d))
level-give_back j ((id, amount) ∷ rest) stored d h =
    let ih = level-give_back j rest stored (hincrby id amount d) h.1 in
    let counted = level-hincrby id j amount d in
    rw (h.0, give)
      (elim (Bool-cases (id == j)) [
        | inl same ↦ rw same (
            ih
            ∙ ap (λ l. l +ℤ demand j rest) (rw same at counted)
            ∙ +ℤ_assoc (level j d) amount (demand j rest))
        | inr apart ↦ rw apart (ih ∙ ap (λ l. l +ℤ demand j rest) (rw apart at counted))
      ])

-- Storing fresh items keeps what was stored.
record_all_keeps :
    (id : String) (amount : ℤ) (items : List (String × ℤ)) (stored : Dict ℤ)
    → Fresh stored items
    → lookup id stored ≡ some amount
    → lookup id (record_all items stored) ≡ some amount
unfolding record_all
record_all_keeps id amount [] stored f h = h
record_all_keeps id amount ((k, a) ∷ rest) stored f h =
    record_all_keeps id amount rest (insert k a stored) f.1
      (rw (lookup-insert k id a stored) (ground (arith, f.0, h, eq_iff k id)))

pub record_all-Stored :
    (items : List (String × ℤ)) (stored : Dict ℤ)
    → Fresh stored items
    → Stored (record_all items stored) items
unfolding record_all
record_all-Stored [] stored f = tt
record_all-Stored ((id, amount) ∷ rest) stored f = (
  record_all_keeps id amount rest (insert id amount stored) f.1
      (rw (lookup-insert id id amount stored, eq_refl) refl),
  record_all-Stored rest (insert id amount stored) f.1,
)

demand-insert :
    (j id : String) (amount : ℤ) (stored : Dict ℤ)
    → lookup id stored ≡ none
    → demand j (insert id amount stored) ≡ demand j stored +ℤ demand j ((id, amount) ∷ [])
unfolding demand insert lookup
demand-insert j id amount [] h = sym (zero_+ℤ _)
demand-insert j id amount ((k, a) ∷ rest) h = elim (Bool-cases (k == id)) [
  | inl same ↦ absurd (cc (rw same at h))
  | inr apart ↦
      let ih = demand-insert j id amount rest (rw apart at h) in
      rw apart (elim (Bool-cases (k == j)) [
        | inl here ↦
            rw here (
              ap (λ x. a +ℤ x) ih ∙ sym (+ℤ_assoc a (demand j rest) (demand j ((id, amount) ∷ []))))
        | inr elsewhere ↦ rw elsewhere ih
      ])
]

demand-cons :
    (j id : String) (amount : ℤ) (rest : List (String × ℤ))
    → demand j ((id, amount) ∷ []) +ℤ demand j rest ≡ demand j ((id, amount) ∷ rest)
unfolding demand
demand-cons j id amount rest = elim (Bool-cases (id == j)) [
  | inl here ↦ rw here (ap (λ x. x +ℤ demand j rest) (+ℤ_zero amount))
  | inr elsewhere ↦ rw elsewhere (zero_+ℤ (demand j rest))
]

-- What is stored in the end asks for what was stored before and what the items ask for.
pub demand-record_all :
    (j : String) (items : List (String × ℤ)) (stored : Dict ℤ)
    → Fresh stored items
    → demand j (record_all items stored) ≡ demand j stored +ℤ demand j items
unfolding record_all
demand-record_all j [] stored f = unfold demand in sym (+ℤ_zero (demand j stored))
demand-record_all j ((id, amount) ∷ rest) stored f =
    let one = demand j ((id, amount) ∷ []) in
    demand-record_all j rest (insert id amount stored) f.1
    ∙ ap (λ x. x +ℤ demand j rest) (demand-insert j id amount stored f.0)
    ∙ +ℤ_assoc (demand j stored) one (demand j rest)
    ∙ ap (λ x. demand j stored +ℤ x) (demand-cons j id amount rest)

-- An item that is stored is not among fresh ones.
demand_of_stored :
    (j : String) (a : ℤ) (items : List (String × ℤ)) (stored : Dict ℤ)
    → Fresh stored items
    → lookup j stored ≡ some a
    → demand j items ≡ pos 0
unfolding demand
demand_of_stored j a [] stored f h = refl
demand_of_stored j a ((id, amount) ∷ rest) stored f h = elim (Bool-cases (id == j)) [
  | inl same ↦ absurd (ground (arith, f.0, h, eq_iff id j, same))
  | inr apart ↦ rw apart (
      demand_of_stored j a rest (insert id amount stored) f.1
        (rw (lookup-insert id j amount stored, apart) h))
]

covers : (a amount later : ℤ) → ltb_ℤ a amount ≡ false → later ≡ pos 0 → amount +ℤ later ≤ℤ a
covers a amount later h e = ground (arith, ap pos_part e, ap neg_part e, +ℤ_parts amount later)

covers_option :
    (o : Option ℤ) (amount later : ℤ)
    → is_short o amount ≡ false
    → later ≡ pos 0
    → amount +ℤ later ≤ℤ or_zero o
covers_option none amount later h e = cc
covers_option (some a) amount later h e = covers a amount later h e

-- Items that pass the validation ask for no more than there is.
pub enough-demand :
    (j : String) (items : List (String × ℤ)) (stored : Dict ℤ) (d : Dict Item)
    → Fresh stored items
    → enough items d ≡ true
    → pos 0 ≤ℤ level j d
    → demand j items ≤ℤ level j d
unfolding enough demand
enough-demand j [] stored d f h p = p
enough-demand j ((id, amount) ∷ rest) stored d f h p =
    elim (Bool-cases (is_short (available id d) amount)) [
      | inl short ↦ absurd (cc (rw short at h))
      | inr fits ↦ elim (Bool-cases (id == j)) [
        | inl same ↦
            let none_later =
              demand_of_stored j amount rest (insert id amount stored) f.1
                (rw (lookup-insert id j amount stored, same) refl) in
            let fits' : is_short (available j d) amount ≡ false =
              rw (← (eq_iff id j).0 same) fits in
            rw same (
              unfold level in covers_option (available j d) amount (demand j rest) fits' none_later)
        | inr apart ↦
            rw apart (enough-demand j rest (insert id amount stored) d f.1 (rw fits at h) p)
      ]
    ]

-- Taking them leaves no level below zero.
pub take_all-nonneg :
    (j : String) (items : List (String × ℤ)) (d : Dict Item)
    → Fresh [] items
    → enough items d ≡ true
    → pos 0 ≤ℤ level j d
    → pos 0 ≤ℤ level j (take_all items d)
take_all-nonneg j items d f h p =
    let left = level-take_all j items d in
    let asked = enough-demand j items [] d f h p in
    omega (
      arith,
      ap pos_part left,
      ap neg_part left,
      asked,
      +ℤ_parts (level j (take_all items d)) (demand j items),
    )
