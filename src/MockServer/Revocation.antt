-- ===== src/MockServer/Revocation.antt =====
-- The end of a lease against the fake revocation endpoint (secret_access_token.go
-- `secretAccessTokenRevoke`, cache.go `revokeCachedTokenAtSalesforce`).
use vault_plugin_secrets_sal.Common.{
  ℕ, String, ◌<>◌, ◌≡◌, ◌≢◌, refl, ap, ◌∙◌, Option, some, [], ◌∷◌, ◌++◌, ne→eq_false, if◌then◌else◌,
  Bool-cases, inl, inr,
}
use vault_plugin_secrets_sal.Errors.{Error, ok, Reply, empty}
use vault_plugin_secrets_sal.Config.{Config, config_storage_prefix, revoke_url}
use vault_plugin_secrets_sal.Role.{Role, roles_storage_prefix}
use vault_plugin_secrets_sal.Token.{CachedToken, cache_storage_prefix}
use vault_plugin_secrets_sal.Platform.{lease_revoked, Platform, HttpClient}
use vault_plugin_secrets_sal.Platform.Laws.{IsLawful}
use vault_plugin_secrets_sal.Action.{State, pure, call, try_call, ◌>>◌}
use vault_plugin_secrets_sal.Action.Keeps.{Keeps, Keeps-bind, Keeps-pure}
use vault_plugin_secrets_sal.Action.Views.{Goes, Goes-pure, Goes-bind, Goes-attempt, Goes-before}
use vault_plugin_secrets_sal.Storage.{
  decoded, get_config, get_role, get_cached_token, delete_cached_token,
}
use vault_plugin_secrets_sal.Storage.Stored.{stored_config, stored_role, stored_token}
use vault_plugin_secrets_sal.Client.{http_client_for}
use vault_plugin_secrets_sal.Lease.{
  role_named, revoke_cached, revoke_cached_token_at_salesforce, revoke_for_role, revoke_lease_of,
  secret_access_token_revoke,
}
use vault_plugin_secrets_sal.MockServer.{MockServer}
use vault_plugin_secrets_sal.MockServer.Revoking.{Revokes, see, read-Goes, revoke_with_config-Goes}

-- What the end of a lease adds to the revoked tokens: the cached token, if the role asks for it.
abbrev pub ended : Role → CachedToken → MockServer → MockServer
ended role ct m = record m {
  revoked_tokens =
      if role.revoke_tokens then m.revoked_tokens ++ ct.access_token ∷ [] else m.revoked_tokens;
}

module _ {V : Platform} (L : IsLawful V) (server : V.World → MockServer) (decimal : ℕ → String)
    (error_text : Error → String) where
  module _ (R : Revokes L server decimal error_text) (name : String) (role : Role) (cfg : Config)
      (ct : CachedToken) (client : HttpClient) (settings : http_client_for V cfg ≡ ok client)
      (requestable : V.new_request (revoke_url cfg) ≡ ok tt) (named : ct.access_token ≢ "") where
    -- The server, and what is stored of the role, its configuration and its token.
    abbrev sight : V.World → MockServer × Option V.Entry × Option V.Entry × Option V.Entry
    sight =
        see L server decimal error_text R (roles_storage_prefix <> name)
          (config_storage_prefix <> role.config) (cache_storage_prefix <> name)

    module _ (s : State V) (role_stored : stored_role L s name ≡ ok (some role))
        (config_stored : stored_config L s role.config ≡ ok (some cfg))
        (token_stored : stored_token L s name ≡ ok (some ct))
        (there : (server s.world).server_url <> "/services/oauth2/revoke" ≡ revoke_url cfg) where
      abbrev first : MockServer × Option V.Entry × Option V.Entry × Option V.Entry
      first = sight s.world

      abbrev after_end : MockServer × Option V.Entry × Option V.Entry × Option V.Entry
      after_end = (ended role ct first.0, first.1, first.2, first.3)

      revoke_at_salesforce-Goes :
          Goes sight first (revoke_cached_token_at_salesforce V name (some role)) (ok tt) after_end
      unfolding revoke_cached_token_at_salesforce revoke_cached get_cached_token get_config
      revoke_at_salesforce-Goes = elim (Bool-cases role.revoke_tokens) [
        | inr kept ↦ rw kept (Goes-pure sight _ tt)
        | inl revoking ↦ rw revoking (
            Goes-bind sight _ _ _ first _
              (Goes-attempt sight _ (
                read-Goes L server decimal error_text R _ _ _ V.token_json _ (some ct) first
                  (λ w here. ap (decoded V.token_json) (ap (λ x. x.3) here) ∙ token_stored)))
              (rw (ne→eq_false _ _ named) (
                Goes-bind sight _ _ _ first _
                  (Goes-attempt sight _ (
                    read-Goes L server decimal error_text R _ _ _ V.config_json _ (some cfg) first
                      (λ w here. ap (decoded V.config_json) (ap (λ x. x.2) here) ∙ config_stored)))
                  (revoke_with_config-Goes L server decimal error_text R _ _ _ first.0 first.1
                    first.2 first.3 cfg client ct.access_token settings requestable there
                    (ne→eq_false _ _ named) name))))
      ]

      get_role-Goes : Goes sight first (get_role V name) (ok (some role)) first
      unfolding get_role
      get_role-Goes =
          read-Goes L server decimal error_text R _ _ _ V.role_json _ (some role) first
            λ w here. ap (decoded V.role_json) (ap (λ x. x.1) here) ∙ role_stored

      -- What follows the revocation leaves the server alone, whether it succeeds or fails.
      abbrev Ended : State V → Type 0
      Ended t = server t.world ≡ ended role ct (server s.world)

      tail-Keeps :
          Keeps {A = Reply (Unit {0})} Ended
            (delete_cached_token V name >> (call V (V.log (lease_revoked name)) >> pure empty))
      unfolding delete_cached_token try_call call
      tail-Keeps =
          Keeps-bind _ _ (record { at = λ t h. R.server-delete _ _ ∙ h })
            λ _. Keeps-bind _ _ (record { at = λ t h. R.server-log _ _ ∙ h }) λ _. Keeps-pure empty

      -- Where every read of the storage succeeds, the role, its configuration and a cached token that
      -- is not empty are stored, the client of the configuration can be made, and its revocation
      -- endpoint is the mock server's, which gets and answers what is sent to it, the end of a
      -- lease of a role that has a name revokes the cached token there, in one request, if the role
      -- asks for that, and else nothing; whether or not what follows the revocation succeeds.
      pub secret_access_token_revoke-revoked :
          name ≢ ""
          → server (secret_access_token_revoke V (role_named name) s).1.world
            ≡ ended role ct (server s.world)
      unfolding secret_access_token_revoke revoke_lease_of revoke_for_role
      secret_access_token_revoke-revoked present =
          rw (secret_access_token_revoke, ne→eq_false name "" present)
            (Goes-before sight first _ _ first Ended (Goes-attempt sight _ get_role-Goes)
              (λ t here.
                Goes-before sight first _ _ after_end Ended revoke_at_salesforce-Goes
                  (λ u there. tail-Keeps.at u (ap (λ x. x.0) there)) t here)
              s refl)
