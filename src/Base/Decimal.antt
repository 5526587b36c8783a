-- ===== src/Base/Decimal.antt =====
-- Python's `str` of an integer, and `int` of a text: blanks around, a sign, and digits with single
-- underscores between them.
use Prim.Native.Char.{Char, code}
use Prim.Native.String.{String, [], ◌∷◌}
use dds.Base.{
  ℕ, zero, suc, ◌+◌, ◌-◌, ◌*◌, ◌/◌, ◌%◌, ◌≤◌, ◌<◌, ◌≡◌, refl, ap, ◌∙◌, Bool, true, false, ◌&&◌,
  Option, none, some, arith, leb, ltb, nat_eq, Bool-cases, inl, inr, if◌then◌else◌,
}
use dds.Base.Int.{ℤ, pos, negsuc, ◌-ℤ◌}
use dds.Base.Split.{strip, strip_dense, AllChars, AllChars-mono, is_blank}

-- the digit of a number below ten
abbrev digit : ℕ → Char
digit zero = "0"
digit (suc zero) = "1"
digit (suc (suc zero)) = "2"
digit (suc (suc (suc zero))) = "3"
digit (suc (suc (suc (suc zero)))) = "4"
digit (suc (suc (suc (suc (suc zero))))) = "5"
digit (suc (suc (suc (suc (suc (suc zero)))))) = "6"
digit (suc (suc (suc (suc (suc (suc (suc zero))))))) = "7"
digit (suc (suc (suc (suc (suc (suc (suc (suc zero)))))))) = "8"
digit _ = "9"

-- the digits of a number before a text, on fuel: the number itself is enough
unfoldable pub digits : ℕ → ℕ → String → String
digits zero n out = digit (n % 10) ∷ out
digits (suc f) n out =
    let more = digits f (n / 10) (digit (n % 10) ∷ out) in
    if ltb n 10 then digit (n % 10) ∷ out else more

-- str(n)
unfoldable pub str_nat : ℕ → String
str_nat n = digits n n []

unfoldable pub str : ℤ → String
str (pos n) = str_nat n
str (negsuc n) = "-" ∷ str_nat (n + 1)

abbrev pub is_digit : Char → Bool
is_digit c = leb 48 (code c) && leb (code c) 57

-- the digits that are left, behind a number; whether a digit stood just before
unfoldable pub scan : String → ℕ → Bool → Option ℕ
scan [] n after_digit = if after_digit then some n else none
scan (c ∷ s) n after_digit =
    let next = scan s (n * 10 + (code c - 48)) true in
    let skip = scan s n false in
    if is_digit c then next else if nat_eq (code c) 95 && after_digit then skip else none

abbrev negated : Option ℕ → Option ℤ
negated none = none
negated (some n) = some (pos 0 -ℤ pos n)

abbrev positive : Option ℕ → Option ℤ
positive none = none
positive (some n) = some (pos n)

unfoldable pub signed : String → Option ℤ
signed [] = none
signed (c ∷ s) =
    if nat_eq (code c) 45
    then negated (scan s 0 false)
    else if nat_eq (code c) 43
    then positive (scan s 0 false)
    else positive (scan (c ∷ s) 0 false)

-- int(s): none is a ValueError
unfoldable pub int : String → Option ℤ
int s = signed (strip s)

code-digit : (n : ℕ) → n < 10 → code (digit n) ≡ 48 + n
code-digit zero h = refl
code-digit (suc zero) h = refl
code-digit (suc (suc zero)) h = refl
code-digit (suc (suc (suc zero))) h = refl
code-digit (suc (suc (suc (suc zero)))) h = refl
code-digit (suc (suc (suc (suc (suc zero))))) h = refl
code-digit (suc (suc (suc (suc (suc (suc zero)))))) h = refl
code-digit (suc (suc (suc (suc (suc (suc (suc zero))))))) h = refl
code-digit (suc (suc (suc (suc (suc (suc (suc (suc zero)))))))) h = refl
code-digit (suc (suc (suc (suc (suc (suc (suc (suc (suc n))))))))) h =
    let e : n ≡ 0 = omega arith in rw e refl

is_digit-digit : (n : ℕ) → n < 10 → is_digit (digit n) ≡ true
is_digit-digit n h = rw (code-digit n h) (ground arith)

scan-digit :
    (d n : ℕ) (out : String) (b : Bool)
    → d < 10
    → scan (digit d ∷ out) n b ≡ scan out (n * 10 + d) true
unfolding scan
scan-digit d n out b h =
    rw (is_digit-digit d h, code-digit d h) (ap (λ k. scan out (n * 10 + k) true) (omega arith))

scan-digits :
    (f n : ℕ) (out : String) (b : Bool) → n ≤ f → scan (digits f n out) 0 b ≡ scan out n true
unfolding digits
scan-digits zero n out b h =
    let e : n ≡ 0 = omega arith in rw e (scan-digit 0 0 out b (omega arith))
scan-digits (suc f) n out b h = elim (Bool-cases (ltb n 10)) [
  | inl small ↦
      rw small
        (scan-digit (n % 10) 0 out b (omega arith) ∙ ap (λ k. scan out k true) (ground arith))
  | inr large ↦ rw large (
      scan-digits f (n / 10) (digit (n % 10) ∷ out) b (ground arith)
      ∙ scan-digit (n % 10) (n / 10) out true (omega arith)
      ∙ ap (λ k. scan out k true) (omega arith))
]

digits-AllChars :
    (f n : ℕ) (out : String) → AllChars is_digit out → AllChars is_digit (digits f n out)
unfolding digits
digits-AllChars zero n out h = (is_digit-digit (n % 10) (omega arith), h)
digits-AllChars (suc f) n out h =
    let d = is_digit-digit (n % 10) (omega arith) in
    elim (Bool-cases (ltb n 10)) [
      | inl small ↦ rw small (d, h)
      | inr large ↦ rw large (digits-AllChars f (n / 10) (digit (n % 10) ∷ out) (d, h))
    ]

-- A number is written in digits only.
pub str_nat-AllChars : (n : ℕ) → AllChars is_digit (str_nat n)
unfolding str_nat
str_nat-AllChars n = digits-AllChars n n [] tt

digit_not_blank : (c : Char) → is_digit c ≡ true → (if is_blank c then false else true) ≡ true
digit_not_blank c h = ground arith

signed_digits :
    (s : String) (n : ℕ) → AllChars is_digit s → scan s 0 false ≡ some n → signed s ≡ some (pos n)
unfolding signed scan
signed_digits [] n h e = cc
signed_digits (c ∷ s) n h e =
    let not_minus : nat_eq (code c) 45 ≡ false = ground (arith, h.0) in
    let not_plus : nat_eq (code c) 43 ≡ false = ground (arith, h.0) in
    rw (not_minus, not_plus, e) refl

-- What `str` writes of a number, `int` reads.
pub int-str_nat : (n : ℕ) → int (str_nat n) ≡ some (pos n)
unfolding int
int-str_nat n =
    let plain = str_nat-AllChars n in
    rw (strip_dense (str_nat n) (AllChars-mono is_digit _ (str_nat n) digit_not_blank plain)) (
      signed_digits (str_nat n) n plain
        (unfold str_nat scan in scan-digits n n [] false (omega arith)))
