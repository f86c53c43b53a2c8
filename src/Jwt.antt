-- ===== src/Jwt.antt =====
-- jwt.go: the JWT bearer assertion, and the memo of parsed RSA keys.
pub mod Lifetime
pub mod Keys
use vault_plugin_secrets_sal.Common.{
  String, Option, none, some, List, [], ◌∷◌, ◌==◌, on_nil, if◌then◌else◌,
}
use vault_plugin_secrets_sal.Common.Int.{pos, ◌+ℤ◌, leb_ℤ}
use vault_plugin_secrets_sal.Common.Text.{trim_slashes}
use vault_plugin_secrets_sal.Errors.{errorf, wrapped, Outcome, ok, fail}
use vault_plugin_secrets_sal.Config.{Config}
use vault_plugin_secrets_sal.Role.{Role, Duration}
use vault_plugin_secrets_sal.Token.{Time, unix}
use vault_plugin_secrets_sal.Platform.{Platform, Claims}
use vault_plugin_secrets_sal.Action.{Action, pure, raise, lift, ◌>>=◌, ◌>>◌}

-- sync.Map.Load
unfoldable pub load_key : {K : Type 0} → String → List (String × K) → Option K
load_key pem [] = none
load_key pem ((p, k) ∷ rest) = if p == pem then some k else load_key pem rest

-- fmt.Errorf around the error of a library call, if there is one.
unfoldable pub wrap_error : {A : Type 0} → String → Outcome A → Outcome A
wrap_error message (ok a) = ok a
wrap_error message (fail e) = fail (wrapped message [] e)

-- 3 * time.Minute
abbrev pub default_jwt_expiry : Duration
default_jwt_expiry = pos 180_000_000_000

unfoldable pub claims_of : Config → Role → Time → Claims
unfolding unix
claims_of cfg role now = record {
  iss = cfg.client_id;
  sub = role.username;
  aud = if role.audience == "" then trim_slashes cfg.login_url else role.audience;
  exp =
      unix (now +ℤ (if leb_ℤ role.jwt_expiry (pos 0) then default_jwt_expiry else role.jwt_expiry));
}

module _ (V : Platform) where
  -- sync.Map.Store
  unfoldable pub store_key : String → V.Key → Action V (Unit {0})
  store_key pem key s = (ok tt, record s { rsa_key_cache = (pem, key) ∷ s.rsa_key_cache })

  unfoldable pub parse_and_store : String → Action V V.Key
  unfolding store_key wrap_error
  parse_and_store pem_key = do
    key ← lift (wrap_error "parsing RSA private key: %w" (V.parse_rsa_key pem_key))
    store_key pem_key key
    pure key

  -- rsaKeyCache.Load
  unfoldable pub load_cached_key : String → Action V (Option V.Key)
  load_cached_key pem_key s = (ok (load_key pem_key s.rsa_key_cache), s)

  unfoldable pub parse_rsa_private_key : String → Action V V.Key
  unfolding parse_and_store load_cached_key load_key
  parse_rsa_private_key pem_key =
      if V.trim_space pem_key == "" then raise (errorf "no private_key configured" []) else do
        cached ← load_cached_key pem_key
        on_nil cached (parse_and_store pem_key) (λ key. pure key)

  unfoldable pub build_jwt_assertion : Config → Role → Time → Action V String
  build_jwt_assertion cfg role now = do
    key ← parse_rsa_private_key cfg.private_key
    lift (wrap_error "signing jwt assertion: %w" (V.sign_rs256 (claims_of cfg role now) key))
