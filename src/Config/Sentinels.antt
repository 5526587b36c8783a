-- ===== src/Config/Sentinels.antt =====
-- The Sentinel hosts, written and read back.
use Prim.Native.Char.{Char}
use Prim.Native.String.{◌∷◌ as char_then, ◌++◌ as concat}
use text.Mathlib.TextLemmas.{append-ne-nil_of_right_ne-nil, cons-ne-nil}
use dds.Base.{
  ℕ, String, ◌==◌, false, eq_iff, ◌≡◌, ◌≢◌, refl, ap, ◌∙◌, true, some, List, [], ◌∷◌, arith, All,
  map, Bool-cases, inl, inr, if◌then◌else◌,
}
use dds.Base.Int.{ℤ, pos}
use dds.Base.Split.{
  strip, strip_dense, split, split-append, split_whole, rsplit_once, rsplit_once-append, join,
  Lacks, IsDense, AllChars-append, AllChars-mono, not_sep, is_blank,
}
use dds.Base.Decimal.{str_nat, str_nat-AllChars, int-str_nat, is_digit}
use dds.Base.Dict.{lookup}
use dds.Config.{Environ, parse_hosts, or_text, get_sentinel_hosts, get_var}

-- the entry "host:port"
abbrev pub entry : String × ℕ → String
entry (host, port) = concat host (char_then ":" (str_nat port))

abbrev pub parsed : String × ℕ → String × ℤ
parsed (host, port) = (host, pos port)

-- A host has no comma and no blank.
abbrev pub IsHost : String × ℕ → Type 0
IsHost (host, port) = Lacks "," host × IsDense host

no_comma : (c : Char) → is_digit c ≡ true → not_sep "," c ≡ true
no_comma c h = ground arith

no_colon : (c : Char) → is_digit c ≡ true → not_sep ":" c ≡ true
no_colon c h = ground arith

no_blank : (c : Char) → is_digit c ≡ true → (if is_blank c then false else true) ≡ true
no_blank c h = ground arith

entry-Lacks : (host : String) (port : ℕ) → Lacks "," host → Lacks "," (entry (host, port))
entry-Lacks host port h =
    AllChars-append _ host _ h
      (refl, AllChars-mono is_digit _ (str_nat port) no_comma (str_nat-AllChars port))

entry-IsDense : (host : String) (port : ℕ) → IsDense host → IsDense (entry (host, port))
entry-IsDense host port h =
    AllChars-append _ host _ h
      (refl, AllChars-mono is_digit _ (str_nat port) no_blank (str_nat-AllChars port))

parse-entry :
    (host : String) (port : ℕ)
    → IsDense host
    → rsplit_once ":" (strip (entry (host, port))) ≡ some (host, str_nat port)
parse-entry host port h =
    ap (rsplit_once ":") (strip_dense _ (entry-IsDense host port h))
    ∙ rsplit_once-append ":" host (str_nat port)
        (AllChars-mono is_digit _ (str_nat port) no_colon (str_nat-AllChars port))

split-entries :
    (h : String × ℕ) (hs : List (String × ℕ))
    → All IsHost (h ∷ hs)
    → split "," (join "," (map entry (h ∷ hs))) ≡ map entry (h ∷ hs)
unfolding join
split-entries (host, port) [] ok = split_whole "," _ (entry-Lacks host port ok.0.0)
split-entries (host, port) (h ∷ hs) ok =
    split-append "," _ _ (entry-Lacks host port ok.0.0)
    ∙ ap (λ ws. entry (host, port) ∷ ws) (split-entries h hs ok.1)

parse_hosts-map :
    (hs : List (String × ℕ)) → All IsHost hs → parse_hosts (map entry hs) ≡ some (map parsed hs)
unfolding parse_hosts
parse_hosts-map [] ok = refl
parse_hosts-map ((host, port) ∷ hs) ok =
    rw (parse-entry host port ok.0.1, int-str_nat port, parse_hosts-map hs ok.1) refl

not_empty : (s : String) → s ≢ "" → (s == "") ≡ false
not_empty s h = elim (Bool-cases (s == "")) [ inl e ↦ absurd (h ((eq_iff s "").0 e)) | inr e ↦ e ]

ends : (s : String) (c : Char) (t : String) → concat s (char_then c t) ≢ ""
ends s c t = append-ne-nil_of_right_ne-nil s (cons-ne-nil c t)

written-ne-empty : (h : String × ℕ) (hs : List (String × ℕ)) → join "," (map entry (h ∷ hs)) ≢ ""
unfolding join
written-ne-empty (host, port) [] = ends host ":" (str_nat port)
written-ne-empty (host, port) (h ∷ hs) = ends (entry (host, port)) "," _

-- Hosts with their ports, none of which has a comma or a blank, written as "host:port" with commas between
-- them, are read back as they are; a host may itself have colons.
pub hosts_are_read_back :
    (h : String × ℕ) (hs : List (String × ℕ)) (env : Environ)
    → All IsHost (h ∷ hs)
    → lookup "SENTINEL_HOSTS" env ≡ some (join "," (map entry (h ∷ hs)))
    → get_sentinel_hosts env ≡ some (some (map parsed (h ∷ hs)))
unfolding get_sentinel_hosts get_var
hosts_are_read_back h hs env ok e =
    let present = not_empty _ (written-ne-empty h hs) in
    rw (e, or_text, present, split-entries h hs ok, parse_hosts-map (h ∷ hs) ok) refl
