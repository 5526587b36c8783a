-- ===== src/Base/Dict.antt =====
-- Python's `dict` and the Redis hash, with texts as keys: an association list in insertion order.
-- A key that is set again keeps its place; a key that is deleted is gone everywhere.
use dds.Base.{
  String, ◌≡◌, refl, true, false, Option, none, some, List, [], ◌∷◌, arith, ◌==◌, eq_iff, eq_refl,
  contains, if◌then◌else◌,
}

abbrev pub Dict {ℓ} : Type ℓ → Type ℓ
Dict V = List (String × V)

module _ {ℓ} {V : Type ℓ} where
  -- d.get(k)
  unfoldable pub lookup : String → Dict V → Option V
  lookup k [] = none
  lookup k ((j, v) ∷ d) = if j == k then some v else lookup k d

  -- d[k] = v
  unfoldable pub insert : String → V → Dict V → Dict V
  insert k v [] = (k, v) ∷ []
  insert k v ((j, w) ∷ d) = if j == k then (j, v) ∷ d else (j, w) ∷ insert k v d

  -- d.pop(k, None)
  unfoldable pub erase : String → Dict V → Dict V
  erase k [] = []
  erase k ((j, v) ∷ d) = let rest = erase k d in if j == k then rest else (j, v) ∷ rest

  pub lookup-insert :
      (k j : String) (v : V) (d : Dict V)
      → lookup j (insert k v d) ≡ (if k == j then some v else lookup j d)
  unfolding lookup insert
  lookup-insert k j v [] = refl
  lookup-insert k j v ((i, w) ∷ d) =
      ground (arith, eq_iff k j, eq_iff i k, eq_iff i j, lookup-insert k j v d)

  -- what was set is found
  pub lookup_same : (k : String) (v : V) (d : Dict V) → lookup k (insert k v d) ≡ some v
  lookup_same k v d = rw (lookup-insert k k v d, eq_refl) refl

  pub lookup-erase :
      (k j : String) (d : Dict V) → lookup j (erase k d) ≡ (if k == j then none else lookup j d)
  unfolding lookup erase
  lookup-erase k j [] = ground arith
  lookup-erase k j ((i, v) ∷ d) =
      ground (arith, lookup-erase k j d, eq_iff i k, eq_iff i j, eq_iff k j)

  pub lookup-nil : (k : String) → lookup k [] ≡ none
  unfolding lookup
  lookup-nil k = refl

pub ruleset dict_laws = (lookup-insert, lookup-erase, lookup-nil)

-- A Redis set of texts.
unfoldable pub set_add : String → List String → List String
set_add x [] = x ∷ []
set_add x (y ∷ ys) = if y == x then y ∷ ys else y ∷ set_add x ys

unfoldable pub set_remove : String → List String → List String
set_remove x [] = []
set_remove x (y ∷ ys) = let rest = set_remove x ys in if y == x then rest else y ∷ rest

pub contains-set_add :
    (x z : String) (ys : List String)
    → contains z (set_add x ys) ≡ (if x == z then true else contains z ys)
unfolding set_add
contains-set_add x z [] = ground (arith, eq_iff x z)
contains-set_add x z (y ∷ ys) =
    ground (arith, contains-set_add x z ys, eq_iff y x, eq_iff y z, eq_iff x z)

pub contains-set_remove :
    (x z : String) (ys : List String)
    → contains z (set_remove x ys) ≡ (if x == z then false else contains z ys)
unfolding set_remove
contains-set_remove x z [] = ground arith
contains-set_remove x z (y ∷ ys) =
    ground (arith, contains-set_remove x z ys, eq_iff y x, eq_iff y z, eq_iff x z)

pub ruleset set_laws = (contains-set_add, contains-set_remove)
