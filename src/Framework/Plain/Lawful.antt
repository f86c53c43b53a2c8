-- ===== src/Framework/Plain/Lawful.antt =====
-- The framework of the tests keeps the laws.
use mathlib.Core.Option.{some-injective}
use text.Mathlib.TextLemmas.{append_assoc}
use vault_plugin_secrets_sal.Common.{
  String, ◌<>◌, ◌≡◌, ◌⊎◌, refl, sym, inl, inr, true, some, [], ◌∷◌, ◌==◌, Bool-cases, Option-cases,
  text-cases, eq_refl, arith,
}
use vault_plugin_secrets_sal.Common.Text.{
  strip_prefix, strip_prefix-append, strip_prefix_of_append, strip_suffix, strip_suffix-append,
  strip_suffix_of_append,
}
use vault_plugin_secrets_sal.Framework.{
  Captures, Schemas, FieldSchema, declares_text, exact, named, listing,
}
use vault_plugin_secrets_sal.Framework.Laws.{IsFramework}
use vault_plugin_secrets_sal.Framework.Plain.{lookup, is_name, captured, find, plain}

find-exact : (t p : String) {c : Captures} → find (exact t) p ≡ some c → (p ≡ t) × (c ≡ [])
unfolding find
find-exact t p {c} h = elim (text-cases p t) [
  | inl (same, e) ↦ (e, ground arith)
  | inr (differ, _) ↦ let no = rw differ at h in cc
]

find-listing :
    (t p : String) {c : Captures}
    → find (listing t) p ≡ some c
    → ((p ≡ t) ⊎ (p ≡ t <> "/")) × (c ≡ [])
unfolding find
find-listing t p {c} h = elim (text-cases p t) [
  | inl (same, e) ↦ (inl e, ground arith)
  | inr (differ, _) ↦ elim (text-cases p (t <> "/")) [
    | inl (same, e) ↦ (inr e, ground arith)
    | inr (d, _) ↦ let no = rw (differ, d) at h in cc
  ]
]

captured-name :
    (field n : String) {c : Captures}
    → captured field n ≡ some c
    → (is_name n ≡ true) × (c ≡ (field, n) ∷ [])
captured-name field n {c} h = elim (Bool-cases (is_name n)) [
  | inl t ↦ (t, sym (some-injective ((field, n) ∷ []) c (rw t at h)))
  | inr f ↦ let no = rw f at h in cc
]

find-named :
    (before field after p : String) {c : Captures}
    → find (named before field after) p ≡ some c
    → (n : String) × (is_name n ≡ true) × (p ≡ (before <> n) <> after) × (c ≡ (field, n) ∷ [])
unfolding find
find-named before field after p h = elim (Option-cases (strip_prefix before p)) [
  | inl e ↦ let no = rw e at h in cc
  | inr (rest, e) ↦ elim (Option-cases (strip_suffix after rest)) [
    | inl e2 ↦ let no = rw (e, e2) at h in cc
    | inr (n, e2) ↦
        let (name, got) = captured-name field n (rw (e, e2) at h) in
        (
          n,
          name,
          rw
              (
                strip_prefix-append before p e,
                strip_suffix-append after rest e2,
                append_assoc before n after,
              )
              refl,
          got,
        )
  ]
]

declared_lookup :
    (field : String) (schema : Schemas)
    → declares_text field schema ≡ true
    → (s : FieldSchema) × (lookup field schema ≡ some s)
declared_lookup field [] h = cc
declared_lookup field ((name, s) ∷ schema) h = elim (Bool-cases (name == field)) [
  | inl t ↦ rw t (s, refl)
  | inr f ↦ rw f (declared_lookup field schema (rw f at h))
]

get_string-captured :
    (schema : Schemas) (field n : String) (body : plain.Body)
    → declares_text field schema ≡ true
    → plain.get_string (plain.field_data schema ((field, n) ∷ []) body) field ≡ n
unfolding plain
get_string-captured schema field n body h =
    let (s, found) = declared_lookup field schema h in rw (found, eq_refl field) refl

pub plain-IsFramework : IsFramework plain
unfolding plain find
plain-IsFramework = record {
  get_string-captured = get_string-captured;
  name-is_flat = λ n h. ground arith;
  name-ne-nil = λ h. cc;
  find-exact = find-exact;
  exact-find = λ t. rw (eq_refl t) refl;
  find-named = find-named;
  named-find = λ before field after n g.
      rw
        (
          append_assoc before n after,
          strip_prefix_of_append before (n <> after),
          strip_suffix_of_append after n,
          g,
        )
        refl;
  find-listing = find-listing;
  listing-find = λ t. rw (eq_refl t) refl;
  listing-find_slash = λ t. ground (arith, eq_refl (t <> "/"));
}
