-- ===== src/Jwt/Keys.antt =====
-- The cache of parsed RSA keys (jwt.go `rsaKeyCache`) is transparent.
use vault_plugin_secrets_sal.Common.{
  String, ◌≡◌, refl, ◌==◌, some, List, [], ◌∷◌, if◌then◌else◌, Option-cases, Bool-cases, text-cases,
  inl, inr,
}
use vault_plugin_secrets_sal.Errors.{errorf, Outcome, ok, fail, Outcome-cases}
use vault_plugin_secrets_sal.Platform.{Platform}
use vault_plugin_secrets_sal.Action.{State, ◌>>=◌}
use vault_plugin_secrets_sal.Jwt.{
  load_key, store_key, wrap_error, parse_and_store, load_cached_key, parse_rsa_private_key,
}

module _ (V : Platform) where
  -- The key of a PEM text, without a cache.
  unfoldable pub parsed_key : String → Outcome V.Key
  unfolding wrap_error
  parsed_key pem =
      if V.trim_space pem == ""
      then fail (errorf "no private_key configured" [])
      else wrap_error "parsing RSA private key: %w" (V.parse_rsa_key pem)

  -- Every cached key is the one that its text parses to.
  pub IsCoherent : List (String × V.Key) → Type 0
  IsCoherent keys =
      (pem : String) (k : V.Key) → load_key pem keys ≡ some k → V.parse_rsa_key pem ≡ ok k

  -- The cache of a process that has just started.
  pub no_keys-IsCoherent : IsCoherent []
  unfolding IsCoherent load_key
  no_keys-IsCoherent pem k h = cc

  store-IsCoherent :
      (pem : String) (k : V.Key) (keys : List (String × V.Key))
      → V.parse_rsa_key pem ≡ ok k
      → IsCoherent keys
      → IsCoherent ((pem, k) ∷ keys)
  unfolding IsCoherent load_key
  store-IsCoherent pem k keys parses h p j found = elim (text-cases pem p) [
    | inl (same, e) ↦ let here : k ≡ j = cc (rw same at found) in rw (← e, ← here) parses
    | inr (differ, n) ↦ h p j (rw differ at found)
  ]

  -- With a cache that holds only what was parsed, a key is the one that its text parses to, an
  -- error is the one of the parse, and the cache still holds only what was parsed.
  pub parse_rsa_private_key-parsed_key :
      (pem : String) (s : State V)
      → IsCoherent s.rsa_key_cache
      → ((parse_rsa_private_key V pem s).0 ≡ parsed_key pem)
        × IsCoherent (parse_rsa_private_key V pem s).1.rsa_key_cache
  unfolding parse_rsa_private_key load_cached_key parse_and_store store_key wrap_error parsed_key
      ◌>>=◌ IsCoherent
  parse_rsa_private_key-parsed_key pem s h = elim (Bool-cases (V.trim_space pem == "")) [
    | inl e ↦ rw e (refl, h)
    | inr e ↦ elim (Option-cases (load_key pem s.rsa_key_cache)) [
      | inr (k, found) ↦ rw (e, found, h pem k found) (refl, h)
      | inl missing ↦ elim (Outcome-cases (V.parse_rsa_key pem)) [
        | inl (k, parses) ↦
            rw (e, missing, parses) (refl, store-IsCoherent pem k s.rsa_key_cache parses h)
        | inr (f, fails) ↦ rw (e, missing, fails) (refl, h)
      ]
    ]
  ]
