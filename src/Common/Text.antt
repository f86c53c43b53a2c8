-- ===== src/Common/Text.antt =====
-- The functions of Go's `strings` that the engine calls, over native texts.
use Prim.Native.Char.{Char, code}
use Prim.Native.String.{String, ◌++◌, count}
use mathlib.Core.Path.{◌≡◌, refl, ap}
use mathlib.Core.Logic.{◌≢◌, inl, inr}
use mathlib.Core.Bool.{Bool, true, false, ◌&&◌}
use mathlib.Core.Option.{Option, none, some, some-injective}
use native.Mathlib.Omega.{arith}
use text.Mathlib.Text.{◌==◌}
use text.Mathlib.TextEquality.{eq_iff, Char-path}
use text.Mathlib.TextPositions.{eq_refl}
use text.Mathlib.TextLemmas.{
  append_inj, append_assoc, cons-append, length-append, length-cons, nil-append,
}
use vault_plugin_secrets_sal.Common.Tests.{
  num_eq, if◌then◌else◌, text-cases, Option-cases, Bool-cases,
}

-- What stands before the suffix, if the text ends in it.
unfoldable pub strip_suffix : String → String → Option String
strip_suffix suffix String.[] = if String.[] == suffix then some String.[] else none
strip_suffix suffix (String.◌∷◌ c s) =
    let rest = strip_suffix suffix s in
    if (String.◌∷◌ c s) == suffix
    then some String.[]
    else elim rest [ none ↦ none | some p ↦ some (String.◌∷◌ c p) ]

-- What follows the prefix, if the text begins with it.
unfoldable pub strip_prefix : String → String → Option String
strip_prefix String.[] s = some s
strip_prefix (String.◌∷◌ c p) String.[] = none
strip_prefix (String.◌∷◌ c p) (String.◌∷◌ d s) =
    let rest = strip_prefix p s in if num_eq (code c) (code d) then rest else none

-- strings.HasSuffix
unfoldable pub has_suffix : String → String → Bool
has_suffix s suffix = elim (strip_suffix suffix s) [ none ↦ false | some _ ↦ true ]

-- strings.TrimSuffix
unfoldable pub trim_suffix : String → String → String
trim_suffix s suffix = elim (strip_suffix suffix s) [ none ↦ s | some p ↦ p ]

-- strings.TrimRight(s, "/")
unfoldable pub trim_slashes : String → String
trim_slashes String.[] = String.[]
trim_slashes (String.◌∷◌ c s) =
    let rest = trim_slashes s in
    if num_eq (code c) b'/' && rest == "" then "" else String.◌∷◌ c rest

trims : trim_slashes "https://a.b//" ≡ "https://a.b"
unfolding trim_slashes
trims = refl

suffixes : (has_suffix "x/token" "/token" ≡ true) × (trim_suffix "x/token" "/token" ≡ "x")
unfolding has_suffix trim_suffix strip_suffix
suffixes = (refl, refl)

-- What `strip_suffix` finds is what stands before the suffix.
pub strip_suffix-append :
    (suffix s : String) {p : String} → strip_suffix suffix s ≡ some p → s ≡ p ++ suffix
unfolding strip_suffix
strip_suffix-append suffix String.[] {p} h = elim (text-cases String.[] suffix) [
  | inl (same, e) ↦ ground (arith, nil-append suffix, e)
  | inr (differ, n) ↦ ground arith
]
strip_suffix-append suffix (String.◌∷◌ c s) {p} h = elim (text-cases (String.◌∷◌ c s) suffix) [
  | inl (same, e) ↦ ground (arith, nil-append suffix, e)
  | inr (differ, n) ↦ elim (Option-cases (strip_suffix suffix s)) [
    | inl e ↦ ground arith
    | inr (q, e) ↦ ground (arith, strip_suffix-append suffix s e, cons-append c q suffix)
  ]
]

-- A text that is longer than the suffix is not it.
append-longer : (c : Char) (p suffix : String) → (String.◌∷◌ c (p ++ suffix) == suffix) ≡ false
append-longer c p suffix = elim (text-cases (String.◌∷◌ c (p ++ suffix)) suffix) [
  | inr (differ, _) ↦ differ
  | inl (_, e) ↦
      let len = length-append p suffix in
      let longer = length-cons c (p ++ suffix) in let same = ap count e in absurd (omega arith)
]

-- What stands before a suffix is found again.
pub strip_suffix_of_append : (suffix p : String) → strip_suffix suffix (p ++ suffix) ≡ some p
unfolding strip_suffix
strip_suffix_of_append String.[] String.[] = refl
strip_suffix_of_append (String.◌∷◌ c s) String.[] =
    rw (nil-append (String.◌∷◌ c s), eq_refl (String.◌∷◌ c s)) refl
strip_suffix_of_append suffix (String.◌∷◌ c p) =
    rw (cons-append c p suffix, append-longer c p suffix, strip_suffix_of_append suffix p) refl

-- What `strip_prefix` finds is what stands after the prefix.
pub strip_prefix-append :
    (p s : String) {rest : String} → strip_prefix p s ≡ some rest → s ≡ p ++ rest
unfolding strip_prefix
strip_prefix-append String.[] s {rest} h = rw (nil-append rest) (some-injective s rest h)
strip_prefix-append (String.◌∷◌ c p) String.[] h = cc
strip_prefix-append (String.◌∷◌ c p) (String.◌∷◌ d s) {rest} h =
    elim (Bool-cases (num_eq (code c) (code d))) [
      | inl t ↦
          let same : c ≡ d = Char-path c d (ground arith) in
          rw (strip_prefix-append p s (rw t at h), cons-append c p rest, same) refl
      | inr f ↦ let no = rw f at h in cc
    ]

-- What stands after a prefix is found again.
pub strip_prefix_of_append : (p s : String) → strip_prefix p (p ++ s) ≡ some s
unfolding strip_prefix
strip_prefix_of_append String.[] s = rw (nil-append s)
strip_prefix_of_append (String.◌∷◌ c p) s =
    rw (cons-append c p s) (ground (arith, strip_prefix_of_append p s))

-- The first characters of equal texts are equal.
heads_agree : (a b r q m n : String) → count a ≡ count b → (a ++ r) ++ m ≡ (b ++ q) ++ n → a ≡ b
heads_agree a b r q m n len p =
    (append_inj (rw (append_assoc a r m, append_assoc b q n) at p) len).0

-- Keys of two kinds of entry never meet.
pub config-ne-cache : (m n : String) → "config/" ++ m ≢ "cache/" ++ n
config-ne-cache m n p = cc ((eq_iff "co" "ca").1 (heads_agree "co" "ca" "nfig/" "che/" m n refl p))

pub role-ne-cache : (m n : String) → "role/" ++ m ≢ "cache/" ++ n
role-ne-cache m n p = cc ((eq_iff "r" "c").1 (heads_agree "r" "c" "ole/" "ache/" m n refl p))

pub role-ne-config : (m n : String) → "role/" ++ m ≢ "config/" ++ n
role-ne-config m n p = cc ((eq_iff "r" "c").1 (heads_agree "r" "c" "ole/" "onfig/" m n refl p))
