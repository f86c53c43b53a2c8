-- ===== src/Role/Handlers.antt =====
-- path_roles.go: the handlers of roles/<name>, and the checks on a role.
use vault_plugin_secrets_sal.Common.{
  ◌/◌, suc, String, ◌<>◌, Bool, not, ◌&&◌, Option, none, some, List, [], ◌∷◌, ◌==◌, on_nil,
  if◌then◌else◌,
}
use vault_plugin_secrets_sal.Common.Int.{ℤ, pos, negsuc, neg, ltb_ℤ, leb_ℤ}
use vault_plugin_secrets_sal.Errors.{
  Error, errorf, wrapped, text, duration, Outcome, ok, fail, Reply, empty, error_response, respond,
}
use vault_plugin_secrets_sal.Config.{Config}
use vault_plugin_secrets_sal.Role.{
  Role, Duration, roles_storage_prefix, no_role, of_seconds, grant_jwt_bearer,
  grant_client_credential,
}
use vault_plugin_secrets_sal.Platform.{Platform}
use vault_plugin_secrets_sal.Action.{Action, pure, lift, try_call, attempt, ◌>>=◌, ◌>>◌}
use vault_plugin_secrets_sal.Storage.{get_config, get_role, delete_cached_token}

-- The request's fields. A field that `GetOk` does not find is `none`; durations are in seconds.
pub record RoleFields : Type 0 where
  pub name : String
  pub config : Option String
  pub grant_type : Option String
  pub username : Option String
  pub scopes : Option (List String)
  pub token_ttl : Option ℤ
  pub ttl : Option ℤ
  pub max_ttl : Option ℤ
  pub renew_skew : Option ℤ
  pub jwt_expiry : Option ℤ
  pub audience : Option String
  pub use_introspection : Option Bool
  pub revoke_tokens : Option Bool

abbrev pub supplied_or {ℓ} : {A : Type ℓ} → Option A → A → A
supplied_or none old = old
supplied_or (some v) old = v

abbrev is_zero : Duration → Bool
is_zero d = leb_ℤ d (pos 0) && leb_ℤ (pos 0) d

-- A duration without a default, and one whose schema gives a default in seconds.
unfoldable pub seconds_or : Option ℤ → Duration → Duration
seconds_or none old = old
seconds_or (some n) old = of_seconds n

unfoldable pub seconds_or_default : Option ℤ → ℤ → Duration → Duration
seconds_or_default none default old = if is_zero old then of_seconds default else old
seconds_or_default (some n) default old = of_seconds n

unfoldable pub merge_role : RoleFields → Role → Role
unfolding seconds_or seconds_or_default
merge_role d r = record {
  config = supplied_or d.config r.config;
  grant_type = supplied_or d.grant_type r.grant_type;
  username = supplied_or d.username r.username;
  scopes = supplied_or d.scopes r.scopes;
  token_ttl = seconds_or_default d.token_ttl (pos 900) r.token_ttl;
  ttl = seconds_or d.ttl r.ttl;
  max_ttl = seconds_or d.max_ttl r.max_ttl;
  renew_skew = seconds_or_default d.renew_skew (pos 60) r.renew_skew;
  jwt_expiry = seconds_or_default d.jwt_expiry (pos 180) r.jwt_expiry;
  audience = supplied_or d.audience r.audience;
  use_introspection = supplied_or d.use_introspection r.use_introspection;
  revoke_tokens = supplied_or d.revoke_tokens r.revoke_tokens;
}

-- The update must not change the Salesforce identity or the bound configuration.
unfoldable pub identity_refusal : Option Role → Role → Option Error
identity_refusal none role = none
identity_refusal (some old) role =
    if not (role.username == old.username)
    then some (
        errorf
          "username is immutable; delete and recreate the role to change the Salesforce identity"
          [])
    else if not (role.config == old.config)
    then some
        (errorf "config is immutable; delete and recreate the role to bind a different config" [])
    else none

-- 5 * time.Minute
abbrev pub max_jwt_expiry : Duration
max_jwt_expiry = pos 300_000_000_000

-- The checks of `validateRole` before the configuration is read.
unfoldable pub role_refusal : Role → Option Error
role_refusal role =
    if role.config == ""
    then some (errorf "config is required" [])
    else if not (role.grant_type == grant_jwt_bearer)
        && not (role.grant_type == grant_client_credential)
    then some (
        errorf "grant_type must be %q or %q"
          (text grant_jwt_bearer ∷ text grant_client_credential ∷ []))
    else if ltb_ℤ (pos 0) role.max_ttl && ltb_ℤ role.max_ttl role.ttl
    then some (
        errorf "ttl (%s) must not exceed max_ttl (%s)"
          (duration role.ttl ∷ duration role.max_ttl ∷ []))
    else if ltb_ℤ max_jwt_expiry role.jwt_expiry
    then some (
        errorf
          "jwt_expiry (%s) must not exceed 5m (Salesforce rejects assertions further in the future)"
          (duration role.jwt_expiry ∷ []))
    else if ltb_ℤ role.renew_skew (pos 0)
    then some (errorf "renew_skew (%s) must not be negative" (duration role.renew_skew ∷ []))
    else if ltb_ℤ (pos 0) role.token_ttl && leb_ℤ role.token_ttl role.renew_skew
    then some (
        errorf "renew_skew (%s) must be less than token_ttl (%s)"
          (duration role.renew_skew ∷ duration role.token_ttl ∷ []))
    else none

-- The `switch` on the grant type: what the bound configuration must hold.
unfoldable pub grant_refusal : Role → Config → Option Error
grant_refusal role cfg =
    if role.grant_type == grant_jwt_bearer
    then (if role.username == ""
        then some (errorf "username is required for the jwt_bearer grant" [])
        else if cfg.private_key == ""
        then some (
            errorf "config %q has no private_key, required for the jwt_bearer grant"
              (text role.config ∷ []))
        else none)
    else if role.grant_type == grant_client_credential
    then (if cfg.client_secret == ""
        then some (
            errorf "config %q has no client_secret, required for the client_credentials grant"
              (text role.config ∷ []))
        else none)
    else none

-- `validateRole` after `getConfig`.
unfoldable pub config_refusal_for : Role → Outcome (Option Config) → Option Error
unfolding grant_refusal
config_refusal_for role (fail e) =
    some (wrapped "error loading config %q: %s" (text role.config ∷ []) e)
config_refusal_for role (ok none) = some (errorf "config %q does not exist" (text role.config ∷ []))
config_refusal_for role (ok (some cfg)) = grant_refusal role cfg

abbrev pub or_no_role : Option Role → Role
or_no_role none = no_role
or_no_role (some r) = r

-- The values of the response map of a role, its durations in whole seconds.
pub record RoleData : Type 0 where
  pub config : String
  pub grant_type : String
  pub username : String
  pub scopes : List String
  pub token_ttl : ℤ
  pub ttl : ℤ
  pub max_ttl : ℤ
  pub renew_skew : ℤ
  pub jwt_expiry : ℤ
  pub audience : String
  pub use_introspection : Bool
  pub revoke_tokens : Bool

-- `int64(d.Seconds())`, truncated toward zero. The `float64` between is exact where the duration is
-- a whole number of seconds.
unfoldable pub whole_seconds : Duration → ℤ
whole_seconds (pos n) = pos (n / 1_000_000_000)
whole_seconds (negsuc n) = neg (pos (suc n / 1_000_000_000))

unfoldable pub role_data : Role → RoleData
unfolding whole_seconds
role_data r = record {
  config = r.config;
  grant_type = r.grant_type;
  username = r.username;
  scopes = r.scopes;
  token_ttl = whole_seconds r.token_ttl;
  ttl = whole_seconds r.ttl;
  max_ttl = whole_seconds r.max_ttl;
  renew_skew = whole_seconds r.renew_skew;
  jwt_expiry = whole_seconds r.jwt_expiry;
  audience = r.audience;
  use_introspection = r.use_introspection;
  revoke_tokens = r.revoke_tokens;
}

module _ (V : Platform) where
  unfoldable pub validate_role : Role → Action V (Option Error)
  validate_role role =
      on_nil (role_refusal role)
        (do cfg ← attempt (get_config V role.config); pure (config_refusal_for role cfg))
        (λ e. pure (some e))

  -- The warning of a role that asks for introspection.
  abbrev pub introspection_warning : String
  introspection_warning =
      "use_introspection is reserved and currently has no effect; token expiry is derived from token_ttl"

  unfoldable pub store_role : String → Role → Action V (Reply String)
  store_role name role = do
    entry ← lift (V.role_json.encode role)
    try_call V (V.storage_put (roles_storage_prefix <> name) entry)
    delete_cached_token V name
    if role.use_introspection then pure (respond introspection_warning) else pure empty

  unfoldable pub check_and_store_role : String → Role → Action V (Reply String)
  check_and_store_role name role = do
    refusal ← validate_role role
    on_nil refusal (store_role name role) (λ e. pure (error_response e))

  unfoldable pub write_role_over : RoleFields → Option Role → Action V (Reply String)
  write_role_over d stored =
      let role = merge_role d (or_no_role stored) in
      on_nil (identity_refusal stored role) (check_and_store_role d.name role)
        (λ e. pure (error_response e))

  unfoldable pub path_role_write : RoleFields → Action V (Reply String)
  path_role_write d =
      if d.name == ""
      then pure (error_response (errorf "missing role name" []))
      else do stored ← get_role V d.name; write_role_over d stored

  unfoldable pub path_role_read : String → Action V (Reply RoleData)
  path_role_read name = do
    role ← get_role V name
    on_nil role (pure empty) (λ r. pure (respond (role_data r)))

  unfoldable pub path_role_existence_check : String → Action V Bool
  path_role_existence_check name = do
    role ← get_role V name
    on_nil role (pure Bool.false) (λ r. pure Bool.true)

  unfoldable pub path_role_delete : String → Action V (Reply (Unit {0}))
  path_role_delete name = do
    delete_cached_token V name
    try_call V (V.storage_delete (roles_storage_prefix <> name))
    pure empty

  unfoldable pub path_role_list : Action V (Reply (List String))
  path_role_list = do names ← try_call V (V.storage_list roles_storage_prefix); pure (respond names)
