-- ===== src/Lease/Frames.antt =====
-- Which entries a rotation, a revocation and a renewal can change.
use vault_plugin_secrets_sal.Common.{String, ◌<>◌, Option, none, some}
use vault_plugin_secrets_sal.Errors.{Outcome, ok, fail}
use vault_plugin_secrets_sal.Config.{Config}
use vault_plugin_secrets_sal.Role.{Role}
use vault_plugin_secrets_sal.Token.{CachedToken, cache_storage_prefix}
use vault_plugin_secrets_sal.Platform.{Platform}
use vault_plugin_secrets_sal.Platform.Laws.{IsLawful}
use vault_plugin_secrets_sal.Action.{State, call}
use vault_plugin_secrets_sal.Action.Keeps.{Keeps, Keeps-bind, Keeps-if, Keeps-pure, Keeps-attempt}
use vault_plugin_secrets_sal.Storage.Frames.{
  IsStable, Keeps-log, Keeps-get_config, Keeps-get_role, Keeps-get_cached_token,
  Keeps-delete_cached_token,
}
use vault_plugin_secrets_sal.Client.Frames.{Keeps-revoke_token}
use vault_plugin_secrets_sal.Creds.Frames.{
  Keeps-mint_and_cache, Keeps-then_unlock, Keeps-with_role_config,
}
use vault_plugin_secrets_sal.Lease.{
  InternalRole, missing, not_text, role_named, LeaseSecret, log_revocation, revoke_with_config,
  revoke_cached, revoke_cached_token_at_salesforce, rotate_locked, path_rotate, revoke_for_role,
  revoke_lease_of, secret_access_token_revoke, renew_for, renew_internal, secret_access_token_renew,
}

module _ {V : Platform} (L : IsLawful V) {W : String → Type 0} {P : State V → Type 0}
    (st : IsStable L W P) where
  Keeps-log_revocation :
      (name : String) (r : Outcome (Unit {0})) → Keeps P (log_revocation V name r)
  unfolding log_revocation
  Keeps-log_revocation name (ok _) = Keeps-log L st _
  Keeps-log_revocation name (fail e) = Keeps-log L st _

  Keeps-revoke_with_config :
      (name token : String) (r : Outcome (Option Config))
      → Keeps P (revoke_with_config V name token r)
  unfolding revoke_with_config
  Keeps-revoke_with_config name token (fail e) = Keeps-pure _
  Keeps-revoke_with_config name token (ok none) = Keeps-pure _
  Keeps-revoke_with_config name token (ok (some cfg)) =
      Keeps-bind _ _ (Keeps-attempt _ (Keeps-revoke_token L st cfg token))
        (Keeps-log_revocation name)

  Keeps-revoke_cached :
      (name : String) (role : Role) (r : Outcome (Option CachedToken))
      → Keeps P (revoke_cached V name role r)
  unfolding revoke_cached
  Keeps-revoke_cached name role (fail e) = Keeps-pure _
  Keeps-revoke_cached name role (ok none) = Keeps-pure _
  Keeps-revoke_cached name role (ok (some ct)) = Keeps-if _ _ _ (Keeps-pure _) (
      Keeps-bind _ _ (Keeps-attempt _ (Keeps-get_config L st role.config))
        (Keeps-revoke_with_config name ct.access_token))

  pub Keeps-revoke_cached_token_at_salesforce :
      (name : String) (role : Option Role) → Keeps P (revoke_cached_token_at_salesforce V name role)
  unfolding revoke_cached_token_at_salesforce
  Keeps-revoke_cached_token_at_salesforce name none = Keeps-pure _
  Keeps-revoke_cached_token_at_salesforce name (some role) = Keeps-if _ _ _ (Keeps-pure _) (
      Keeps-bind _ _ (Keeps-attempt _ (Keeps-get_cached_token L st name))
        (Keeps-revoke_cached name role))

  Keeps-revoke_for_role :
      (name : String) (r : Outcome (Option Role)) → Keeps P (revoke_for_role V name r)
  unfolding revoke_for_role
  Keeps-revoke_for_role name (fail e) = Keeps-pure _
  Keeps-revoke_for_role name (ok role) = Keeps-revoke_cached_token_at_salesforce name role

  Keeps-renew_for : (secret : LeaseSecret) (name : String) → Keeps P (renew_for V secret name)
  unfolding renew_for
  Keeps-renew_for secret name = Keeps-bind _ _ (Keeps-get_role L st name) λ role. Keeps-pure _

  Keeps-renew_internal :
      (secret : LeaseSecret) (r : InternalRole) → Keeps P (renew_internal V secret r)
  unfolding renew_internal
  Keeps-renew_internal secret missing = Keeps-pure _
  Keeps-renew_internal secret not_text = Keeps-renew_for secret ""
  Keeps-renew_internal secret (role_named name) = Keeps-renew_for secret name

  pub Keeps-secret_access_token_renew :
      (secret : LeaseSecret) → Keeps P (secret_access_token_renew V secret)
  unfolding secret_access_token_renew
  Keeps-secret_access_token_renew secret = Keeps-renew_internal secret _

  module _ (all : (name : String) → W (cache_storage_prefix <> name)) where
    Keeps-revoke_lease_of : (name : String) → Keeps P (revoke_lease_of V name)
    unfolding revoke_lease_of
    Keeps-revoke_lease_of name = Keeps-bind _ _ (Keeps-attempt _ (Keeps-get_role L st name)) λ role.
        Keeps-bind _ _ (Keeps-revoke_for_role name role) λ _.
          Keeps-bind _ _ (Keeps-delete_cached_token L st name (all name))
            λ _. Keeps-bind _ _ (Keeps-log L st _) λ _. Keeps-pure _

    pub Keeps-secret_access_token_revoke :
        (r : InternalRole) → Keeps P (secret_access_token_revoke V r)
    unfolding secret_access_token_revoke
    Keeps-secret_access_token_revoke missing = Keeps-pure _
    Keeps-secret_access_token_revoke not_text = Keeps-pure _
    Keeps-secret_access_token_revoke (role_named name) =
        Keeps-if _ _ _ (Keeps-pure _) (Keeps-revoke_lease_of name)

    pub Keeps-path_rotate :
        (name : String) → Keeps P (call V (V.lock name)) → Keeps P (path_rotate V name)
    unfolding path_rotate rotate_locked
    Keeps-path_rotate name waited = Keeps-with_role_config L st name _ λ cfg role.
        Keeps-bind _ _ waited λ _. Keeps-then_unlock L st name _ (
          Keeps-bind _ _ (Keeps-revoke_cached_token_at_salesforce name (some role)) λ _.
            Keeps-bind _ _ (Keeps-delete_cached_token L st name (all name)) λ _.
              Keeps-bind _ _ (Keeps-mint_and_cache L st name (all name) cfg role)
                λ ct. Keeps-bind _ _ (Keeps-log L st _) λ _. Keeps-pure _)
