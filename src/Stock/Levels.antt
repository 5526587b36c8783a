-- ===== src/Stock/Levels.antt =====
-- How much of an item there is, and what the loops of the scripts do to it.
use dds.Base.{
  String, ◌==◌, eq_iff, ◌≡◌, refl, sym, ap, ◌∙◌, Option, none, some, List, [], ◌∷◌, arith,
  Bool-cases, Option-cases, inl, inr, if◌then◌else◌,
}
use dds.Base.Int.{
  ℤ, pos, ◌+ℤ◌, ◌-ℤ◌, pos_part, neg_part, +ℤ_parts, -ℤ_parts, eq_of_parts, +ℤ_assoc, +ℤ_zero,
  zero_+ℤ,
}
use dds.Base.Dict.{Dict, lookup, lookup-insert}
use dds.Stock.{Item, counted, available_of, hincrby, available, take_all, give_all}

abbrev pub or_zero : Option ℤ → ℤ
or_zero none = pos 0
or_zero (some a) = a

-- The level of an item, where what is missing counts as none.
unfoldable pub level : String → Dict Item → ℤ
level id d = or_zero (available id d)

-- How much of an item a list of items asks for.
unfoldable pub demand : String → List (String × ℤ) → ℤ
demand id [] = pos 0
demand id ((j, amount) ∷ rest) =
    let later = demand id rest in if j == id then amount +ℤ later else later

give_again :
    (left asked amount whole : ℤ)
    → left +ℤ asked ≡ whole +ℤ (pos 0 -ℤ amount)
    → left +ℤ (amount +ℤ asked) ≡ whole
give_again left asked amount whole h =
    let taken = pos 0 -ℤ amount in
    eq_of_parts _ _ (
      omega (
        arith,
        ap pos_part h,
        ap neg_part h,
        -ℤ_parts (pos 0) amount,
        +ℤ_parts left asked,
        +ℤ_parts whole taken,
        +ℤ_parts amount asked,
        +ℤ_parts left (amount +ℤ asked),
      ))

level_counted :
    (n : ℤ) (o : Option Item)
    → or_zero (available_of (some (counted n o))) ≡ or_zero (available_of o) +ℤ n
level_counted n none = sym (zero_+ℤ n)
level_counted n (some item) = elim (Option-cases item.available_stock) [
  | inl missing ↦ rw missing (sym (zero_+ℤ n))
  | inr (a, e) ↦ rw e refl
]

pub level-hincrby :
    (id j : String) (n : ℤ) (d : Dict Item)
    → level j (hincrby id n d) ≡ (if id == j then level j d +ℤ n else level j d)
unfolding level hincrby available
level-hincrby id j n d = elim (Bool-cases (id == j)) [
  | inl same ↦
      rw (lookup-insert id j (counted n (lookup id d)) d, same)
        (level_counted n (lookup id d)
          ∙ ap (λ x. or_zero (available_of (lookup x d)) +ℤ n) ((eq_iff id j).0 same))
  | inr apart ↦ rw (lookup-insert id j (counted n (lookup id d)) d, apart) refl
]

-- Taking all items leaves what there was, less what was asked for.
pub level-take_all :
    (j : String) (items : List (String × ℤ)) (d : Dict Item)
    → level j (take_all items d) +ℤ demand j items ≡ level j d
unfolding take_all demand
level-take_all j [] d = +ℤ_zero (level j d)
level-take_all j ((id, amount) ∷ rest) d =
    let ih =
      level-take_all j rest (hincrby id (pos 0 -ℤ amount) d)
      ∙ level-hincrby id j (pos 0 -ℤ amount) d in
    elim (Bool-cases (id == j)) [
      | inl same ↦ rw same (give_again _ (demand j rest) amount (level j d) (rw same at ih))
      | inr apart ↦ rw apart (rw apart at ih)
    ]

pub level-give_all :
    (j : String) (stored : Dict ℤ) (d : Dict Item)
    → level j (give_all stored d) ≡ level j d +ℤ demand j stored
unfolding give_all demand
level-give_all j [] d = sym (+ℤ_zero (level j d))
level-give_all j ((id, amount) ∷ rest) d =
    let ih = level-give_all j rest (hincrby id amount d) in
    let counted = level-hincrby id j amount d in
    elim (Bool-cases (id == j)) [
      | inl same ↦ rw same (
          ih
          ∙ ap (λ l. l +ℤ demand j rest) (rw same at counted)
          ∙ +ℤ_assoc (level j d) amount (demand j rest))
      | inr apart ↦ rw apart (ih ∙ ap (λ l. l +ℤ demand j rest) (rw apart at counted))
    ]
