-- ===== src/Framework/Laws.antt =====
-- What the proofs assume of Vault's `framework` package and of `regexp`, as they document it.
use vault_plugin_secrets_sal.Common.{String, ◌<>◌, true, ◌≡◌, ◌≢◌, ◌⊎◌, some, [], ◌∷◌}
use vault_plugin_secrets_sal.Platform.Laws.{is_flat}
use vault_plugin_secrets_sal.Framework.{
  Framework, Captures, Schemas, declares_text, exact, named, listing,
}

-- A pattern has to match the whole path. A name of `GenericNameRegex` has a character, and has no
-- "/". What a path captures is what a handler gets, whatever the body holds.
pub record IsFramework (F : Framework) : Type 0 where
  pub get_string-captured :
      (schema : Schemas) (field n : String) (body : F.Body)
      → declares_text field schema ≡ true
      → F.get_string (F.field_data schema ((field, n) ∷ []) body) field ≡ n
  pub name-is_flat : (n : String) → F.is_generic_name n ≡ true → is_flat n ≡ true
  pub name-ne-nil : F.is_generic_name "" ≢ true
  pub find-exact : (t p : String) {c : Captures} → F.find (exact t) p ≡ some c → (p ≡ t) × (c ≡ [])
  pub exact-find : (t : String) → F.find (exact t) t ≡ some []
  pub find-named :
      (before field after p : String) {c : Captures}
      → F.find (named before field after) p ≡ some c
      → (n : String) × (F.is_generic_name n ≡ true)
        × (p ≡ (before <> n) <> after)
        × (c ≡ (field, n) ∷ [])
  pub named-find :
      (before field after n : String)
      → F.is_generic_name n ≡ true
      → F.find (named before field after) ((before <> n) <> after) ≡ some ((field, n) ∷ [])
  pub find-listing :
      (t p : String) {c : Captures}
      → F.find (listing t) p ≡ some c
      → ((p ≡ t) ⊎ (p ≡ t <> "/")) × (c ≡ [])
  pub listing-find : (t : String) → F.find (listing t) t ≡ some []
  pub listing-find_slash : (t : String) → F.find (listing t) (t <> "/") ≡ some []
