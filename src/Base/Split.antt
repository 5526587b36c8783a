-- ===== src/Base/Split.antt =====
-- Python's `strip`, `split` and `rsplit` of texts, at a separator of one character, and what they give back
-- of a text that was joined. The blanks are those of ASCII.
use Prim.Native.Char.{Char, code}
use Prim.Native.String.{String, [], ◌∷◌, ◌++◌}
use text.Mathlib.TextLemmas.{nil-append, cons-append}
use mathlib.Core.List.{List, [] as nil, ◌∷◌ as cons}
use dds.Base.{
  ◌≡◌, refl, Bool, true, false, ◌&&◌, ◌||◌, Option, none, some, arith, leb, nat_eq, if◌then◌else◌,
}

-- c.isspace()
abbrev pub is_blank : Char → Bool
is_blank c = (leb 9 (code c) && leb (code c) 13) || (leb 28 (code c) && leb (code c) 32)

unfoldable pub strip_left : String → String
strip_left [] = []
strip_left (c ∷ s) = if is_blank c then strip_left s else c ∷ s

abbrev keep : Char → String → String
keep c [] = if is_blank c then [] else c ∷ []
keep c (d ∷ s) = c ∷ (d ∷ s)

unfoldable pub strip_right : String → String
strip_right [] = []
strip_right (c ∷ s) = keep c (strip_right s)

-- s.strip()
unfoldable pub strip : String → String
strip s = strip_right (strip_left s)

abbrev is_sep : Char → Char → Bool
is_sep sep c = nat_eq (code c) (code sep)

abbrev push : Char → List String → List String
push c nil = cons (c ∷ []) nil
push c (cons w ws) = cons (c ∷ w) ws

-- s.split(sep)
unfoldable pub split : Char → String → List String
split sep [] = cons [] nil
split sep (c ∷ s) = let rest = split sep s in if is_sep sep c then cons [] rest else push c rest

abbrev push_left : Char → Option (String × String) → Option (String × String)
push_left c none = none
push_left c (some (a, b)) = some (c ∷ a, b)

-- the two parts of s.split(sep, 1), if there are two
unfoldable pub split_once : Char → String → Option (String × String)
split_once sep [] = none
split_once sep (c ∷ s) =
    let later = split_once sep s in if is_sep sep c then some ([], s) else push_left c later

abbrev or_here : Char → Char → String → Option (String × String) → Option (String × String)
or_here sep c s (some (a, b)) = some (c ∷ a, b)
or_here sep c s none = if is_sep sep c then some ([], s) else none

-- the two parts of s.rsplit(sep, 1), if there are two
unfoldable pub rsplit_once : Char → String → Option (String × String)
rsplit_once sep [] = none
rsplit_once sep (c ∷ s) = or_here sep c s (rsplit_once sep s)

-- sep.join(words)
unfoldable pub join : Char → List String → String
join sep nil = []
join sep (cons w nil) = w
join sep (cons w (cons v ws)) = w ++ (sep ∷ join sep (cons v ws))

-- Every character of the text passes the test.
abbrev pub AllChars : (Char → Bool) → String → Type 0
AllChars p [] = Unit
AllChars p (c ∷ s) = (p c ≡ true) × AllChars p s

abbrev pub not_sep : Char → Char → Bool
not_sep sep c = if is_sep sep c then false else true

abbrev pub Lacks : Char → String → Type 0
Lacks sep s = AllChars (not_sep sep) s

pub AllChars-append :
    (p : Char → Bool) (s t : String) → AllChars p s → AllChars p t → AllChars p (s ++ t)
AllChars-append p [] t hs ht = rw (nil-append t) ht
AllChars-append p (c ∷ s) t hs ht = rw (cons-append c s t) (hs.0, AllChars-append p s t hs.1 ht)

pub AllChars-mono :
    (p q : Char → Bool) (s : String)
    → ((c : Char) → p c ≡ true → q c ≡ true)
    → AllChars p s
    → AllChars q s
AllChars-mono p q [] h a = tt
AllChars-mono p q (c ∷ s) h a = (h c a.0, AllChars-mono p q s h a.1)

self : (c : Char) → is_sep c c ≡ true
self c = ground arith

passes : (sep c : Char) → not_sep sep c ≡ true → is_sep sep c ≡ false
passes sep c h = ground arith

pub split-append :
    (sep : Char) (w rest : String)
    → Lacks sep w
    → split sep (w ++ (sep ∷ rest)) ≡ cons w (split sep rest)
unfolding split
split-append sep [] rest h = rw (nil-append (sep ∷ rest), self sep) refl
split-append sep (c ∷ w) rest h =
    rw (cons-append c w (sep ∷ rest), passes sep c h.0, split-append sep w rest h.1) refl

pub split_whole : (sep : Char) (w : String) → Lacks sep w → split sep w ≡ cons w nil
unfolding split
split_whole sep [] h = refl
split_whole sep (c ∷ w) h = rw (passes sep c h.0, split_whole sep w h.1) refl

pub split_once-append :
    (sep : Char) (w rest : String)
    → Lacks sep w
    → split_once sep (w ++ (sep ∷ rest)) ≡ some (w, rest)
unfolding split_once
split_once-append sep [] rest h = rw (nil-append (sep ∷ rest), self sep) refl
split_once-append sep (c ∷ w) rest h =
    rw (cons-append c w (sep ∷ rest), passes sep c h.0, split_once-append sep w rest h.1) refl

rsplit_none : (sep : Char) (w : String) → Lacks sep w → rsplit_once sep w ≡ none
unfolding rsplit_once
rsplit_none sep [] h = refl
rsplit_none sep (c ∷ w) h = rw (rsplit_none sep w h.1, passes sep c h.0) refl

pub rsplit_once-append :
    (sep : Char) (w rest : String)
    → Lacks sep rest
    → rsplit_once sep (w ++ (sep ∷ rest)) ≡ some (w, rest)
unfolding rsplit_once
rsplit_once-append sep [] rest h =
    rw (nil-append (sep ∷ rest), rsplit_none sep rest h, self sep) refl
rsplit_once-append sep (c ∷ w) rest h =
    rw (cons-append c w (sep ∷ rest), rsplit_once-append sep w rest h) refl

abbrev not_blank : Char → Bool
not_blank c = if is_blank c then false else true

-- No character is a blank.
abbrev pub IsDense : String → Type 0
IsDense s = AllChars not_blank s

not_true : (b : Bool) → (if b then false else true) ≡ true → b ≡ false
not_true true h = cc
not_true false h = refl

dense : (c : Char) → not_blank c ≡ true → is_blank c ≡ false
dense c h = not_true (is_blank c) h

strip_right_dense : (s : String) → IsDense s → strip_right s ≡ s
unfolding strip_right
strip_right_dense [] h = refl
strip_right_dense (c ∷ []) h = rw (dense c h.0) refl
strip_right_dense (c ∷ (d ∷ s)) h = rw (strip_right_dense (d ∷ s) h.1) refl

pub strip_dense : (s : String) → IsDense s → strip s ≡ s
unfolding strip strip_left
strip_dense [] h = strip_right_dense [] h
strip_dense (c ∷ s) h = rw (dense c h.0) (strip_right_dense (c ∷ s) h)
