-- ===== src/Backend/Segments.antt =====
-- The segments of a request's path, between its slashes.
use Prim.Native.Char.{Char, code}
use text.Mathlib.TextEquality.{Char-path}
use text.Mathlib.TextLemmas.{nil-append, cons-append}
use vault_plugin_secrets_sal.Common.{
  String, ◌<>◌, ◌≡◌, ◌≢◌, refl, true, false, List, [], ◌∷◌, num_eq, if◌then◌else◌, Bool-cases, inl,
  inr, arith,
}
use vault_plugin_secrets_sal.Platform.Laws.{is_flat}

abbrev grow : Char → List String → List String
grow c [] = String.◌∷◌ c "" ∷ []
grow c (w ∷ words) = String.◌∷◌ c w ∷ words

unfoldable pub segments : String → List String
segments String.[] = "" ∷ []
segments (String.◌∷◌ c s) =
    let rest = segments s in if num_eq (code c) b'/' then "" ∷ rest else grow c rest

unfoldable pub join : List String → String
join [] = ""
join (w ∷ []) = w
join (w ∷ v ∷ words) = (w <> "/") <> join (v ∷ words)

splits : segments "roles/app/rotate" ≡ "roles" ∷ "app" ∷ "rotate" ∷ []
unfolding segments
splits = refl

-- The first character of a text with no slash is none.
flat_head :
    (c : Char) (s : String)
    → is_flat (String.◌∷◌ c s) ≡ true
    → (num_eq (code c) b'/' ≡ false) × (is_flat s ≡ true)
flat_head c s h = ground arith

-- A text with no slash is one segment.
pub segments_of_flat : (n : String) → is_flat n ≡ true → segments n ≡ n ∷ []
unfolding segments
segments_of_flat String.[] h = refl
segments_of_flat (String.◌∷◌ c s) h =
    let (other, flat) = flat_head c s h in rw (other, segments_of_flat s flat) refl

abbrev slash_char : Char
slash_char = "/"

-- A text that begins with a slash.
slash-append : (b : String) → "/" <> b ≡ String.◌∷◌ slash_char b
slash-append b = rw (cons-append slash_char "" b, nil-append b) refl

-- The first segment ends at the first slash.
pub segments-slash : (a b : String) → is_flat a ≡ true → segments ((a <> "/") <> b) ≡ a ∷ segments b
unfolding segments
segments-slash String.[] b h = rw (slash-append b) refl
segments-slash (String.◌∷◌ c s) b h =
    let (other, flat) = flat_head c s h in
    rw (cons-append c s "/", cons-append c (s <> "/") b, other, segments-slash s b flat) refl

join-grow : (c : Char) (words : List String) → join (grow c words) ≡ String.◌∷◌ c (join words)
unfolding join
join-grow c [] = refl
join-grow c (w ∷ []) = refl
join-grow c (w ∷ v ∷ words) =
    rw (cons-append c w "/", cons-append c (w <> "/") (join (v ∷ words))) refl

join-nil : (words : List String) → words ≢ [] → join ("" ∷ words) ≡ "/" <> join words
unfolding join
join-nil [] h = absurd (h refl)
join-nil (v ∷ words) h = rw (nil-append "/") refl

grow-ne-nil : (c : Char) (words : List String) → grow c words ≢ []
grow-ne-nil c [] p = cc
grow-ne-nil c (w ∷ words) p = cc

segments-ne-nil : (s : String) → segments s ≢ []
unfolding segments
segments-ne-nil String.[] p = cc
segments-ne-nil (String.◌∷◌ c s) p = elim (Bool-cases (num_eq (code c) b'/')) [
  | inl slash ↦ let q = rw slash at p in cc
  | inr other ↦ grow-ne-nil c (segments s) (rw other at p)
]

-- The segments with the slashes between them are the text.
pub join-segments : (s : String) → join (segments s) ≡ s
unfolding segments join
join-segments String.[] = refl
join-segments (String.◌∷◌ c s) = elim (Bool-cases (num_eq (code c) b'/')) [
  | inl slash ↦
      let same : c ≡ slash_char = Char-path c slash_char (ground arith) in
      rw (slash, join-nil (segments s) (segments-ne-nil s), join-segments s, slash-append s, same)
        refl
  | inr other ↦ rw (other, join-grow c (segments s), join-segments s) refl
]
