-- ===== src/Lease.antt =====
-- cache.go `revokeCachedTokenAtSalesforce`, path_rotate.go, and the lease handlers of
-- secret_access_token.go.
pub mod Frames
pub mod Outcomes
pub mod Targets
use vault_plugin_secrets_sal.Common.{
  String, Bool, true, not, Option, none, some, ◌==◌, if◌then◌else◌,
}
use vault_plugin_secrets_sal.Errors.{Outcome, ok, fail, Reply, empty, respond}
use vault_plugin_secrets_sal.Config.{Config}
use vault_plugin_secrets_sal.Role.{Role, Duration}
use vault_plugin_secrets_sal.Token.{Time, CachedToken}
use vault_plugin_secrets_sal.Platform.{Platform, LogLine, revoke_failed, revoked, lease_revoked}
use vault_plugin_secrets_sal.Action.{Action, pure, call, attempt, ◌>>=◌, ◌>>◌}
use vault_plugin_secrets_sal.Storage.{get_config, get_role, get_cached_token, delete_cached_token}
use vault_plugin_secrets_sal.Client.{revoke_token}
use vault_plugin_secrets_sal.Creds.{mint_and_cache, then_unlock, with_role_config}

-- `InternalData["role"]` of a lease.
pub data InternalRole : Type 0 where
  missing : InternalRole
  not_text : InternalRole
  role_named : String → InternalRole

pub record LeaseSecret : Type 0 where
  pub internal_role : InternalRole
  pub ttl : Duration
  pub max_ttl : Duration

pub record Rotation : Type 0 where
  pub rotated : Bool
  pub role : String
  pub expires_at : Time

module _ (V : Platform) where
  unfoldable pub log_revocation : String → Outcome (Unit {0}) → Action V (Unit {0})
  log_revocation role_name (fail e) = call V (V.log (revoke_failed role_name e))
  log_revocation role_name (ok _) = call V (V.log (revoked role_name))

  unfoldable pub revoke_with_config :
      String → String → Outcome (Option Config) → Action V (Unit {0})
  unfolding log_revocation
  revoke_with_config role_name access_token (fail e) = pure tt
  revoke_with_config role_name access_token (ok none) = pure tt
  revoke_with_config role_name access_token (ok (some cfg)) = do
    result ← attempt (revoke_token V cfg access_token)
    log_revocation role_name result

  unfoldable pub revoke_cached : String → Role → Outcome (Option CachedToken) → Action V (Unit {0})
  unfolding revoke_with_config
  revoke_cached role_name role (fail e) = pure tt
  revoke_cached role_name role (ok none) = pure tt
  revoke_cached role_name role (ok (some ct)) = if ct.access_token == "" then pure tt else do
    cfg ← attempt (get_config V role.config)
    revoke_with_config role_name ct.access_token cfg

  unfoldable pub revoke_cached_token_at_salesforce : String → Option Role → Action V (Unit {0})
  unfolding revoke_cached
  revoke_cached_token_at_salesforce role_name none = pure tt
  revoke_cached_token_at_salesforce role_name (some role) =
      if not role.revoke_tokens
      then pure tt
      else do ct ← attempt (get_cached_token V role_name); revoke_cached role_name role ct

  -- What `pathRotate` does under the mint lock.
  unfoldable pub rotate_locked : String → Config → Role → Action V (Reply Rotation)
  rotate_locked role_name cfg role = do
    revoke_cached_token_at_salesforce role_name (some role)
    delete_cached_token V role_name
    ct ← mint_and_cache V role_name cfg role
    call V (V.log (LogLine.rotated role_name ct.expires_at))
    pure (respond (record { rotated = true; role = role_name; expires_at = ct.expires_at }))

  unfoldable pub path_rotate : String → Action V (Reply Rotation)
  path_rotate role_name = with_role_config V role_name λ cfg role. do
    call V (V.lock role_name)
    then_unlock V role_name (rotate_locked role_name cfg role)

  -- `if roleObj, err := b.getRole(…); err == nil { … }`
  unfoldable pub revoke_for_role : String → Outcome (Option Role) → Action V (Unit {0})
  revoke_for_role role_name (fail e) = pure tt
  revoke_for_role role_name (ok role) = revoke_cached_token_at_salesforce role_name role

  unfoldable pub revoke_lease_of : String → Action V (Reply (Unit {0}))
  unfolding revoke_for_role
  revoke_lease_of role_name = do
    role ← attempt (get_role V role_name)
    revoke_for_role role_name role
    delete_cached_token V role_name
    call V (V.log (lease_revoked role_name))
    pure empty

  unfoldable pub secret_access_token_revoke : InternalRole → Action V (Reply (Unit {0}))
  secret_access_token_revoke missing = pure empty
  secret_access_token_revoke not_text = pure empty
  secret_access_token_revoke (role_named name) =
      if name == "" then pure empty else revoke_lease_of name

  -- The lease with the role's times, if the role still exists.
  unfoldable pub with_role_times : LeaseSecret → Option Role → LeaseSecret
  with_role_times secret none = secret
  with_role_times secret (some role) = record secret { ttl = role.ttl; max_ttl = role.max_ttl }

  unfoldable pub renew_for : LeaseSecret → String → Action V (Reply LeaseSecret)
  renew_for secret role_name = do
    role ← get_role V role_name
    pure (respond (with_role_times secret role))

  unfoldable pub renew_internal : LeaseSecret → InternalRole → Action V (Reply LeaseSecret)
  unfolding renew_for with_role_times
  renew_internal secret missing = pure empty
  renew_internal secret not_text = renew_for secret ""
  renew_internal secret (role_named name) = renew_for secret name

  unfoldable pub secret_access_token_renew : LeaseSecret → Action V (Reply LeaseSecret)
  unfolding renew_internal
  secret_access_token_renew secret = renew_internal secret secret.internal_role
