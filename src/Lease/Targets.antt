-- ===== src/Lease/Targets.antt =====
-- What the calls of a revocation and of a rotation keep, all of them do (cache.go and
-- path_rotate.go).
use vault_plugin_secrets_sal.Common.{String, Option, none, some, [], ◌∷◌}
use vault_plugin_secrets_sal.Errors.{Outcome, ok, fail}
use vault_plugin_secrets_sal.Config.{Config, effective_token_url, revoke_url}
use vault_plugin_secrets_sal.Role.{Role}
use vault_plugin_secrets_sal.Token.{CachedToken}
use vault_plugin_secrets_sal.Platform.{Platform, HttpRequest, HttpClient}
use vault_plugin_secrets_sal.Action.{State}
use vault_plugin_secrets_sal.Action.Keeps.{
  Keeps, Keeps-bind, Keeps-if, Keeps-pure, Keeps-attempt, keeps_rules,
}
use vault_plugin_secrets_sal.Storage.{put_cached_token, delete_cached_token}
use vault_plugin_secrets_sal.Client.{Form, revoke_token}
use vault_plugin_secrets_sal.Client.Targets.{Calls}
use vault_plugin_secrets_sal.Creds.Targets.{
  Keeps-get_config, Keeps-get_cached_token, Keeps-mint_and_cache,
}
use vault_plugin_secrets_sal.Lease.{
  log_revocation, revoke_with_config, revoke_cached, revoke_cached_token_at_salesforce,
  rotate_locked,
}

-- `revocation`: a request that holds a token and nothing else is allowed.
module _ {V : Platform} {P : State V → Type 0} {Allowed : HttpRequest → Type 0}
    (C : Calls V P Allowed)
    (revocation : (url token : String)
      → Allowed (record { url = url; form = ("token", token) ∷ [] })) where
  Keeps-revoke_token : (cfg : Config) (token : String) → Keeps P (revoke_token V cfg token)
  unfolding revoke_token
  Keeps-revoke_token cfg token =
      let post = λ (c : HttpClient). C.post c _ (revocation (revoke_url cfg) token) in
      search (keeps_rules, post) depth 8

  Keeps-log_revocation : (n : String) (r : Outcome (Unit {0})) → Keeps P (log_revocation V n r)
  unfolding log_revocation
  Keeps-log_revocation n (ok _) = C.log _
  Keeps-log_revocation n (fail e) = C.log _

  Keeps-revoke_with_config :
      (n token : String) (o : Outcome (Option Config)) → Keeps P (revoke_with_config V n token o)
  unfolding revoke_with_config
  Keeps-revoke_with_config n token (fail e) = Keeps-pure _
  Keeps-revoke_with_config n token (ok none) = Keeps-pure _
  Keeps-revoke_with_config n token (ok (some cfg)) =
      Keeps-bind _ _ (Keeps-attempt _ (Keeps-revoke_token cfg token)) (Keeps-log_revocation n)

  Keeps-revoke_cached :
      (n : String) (role : Role) (o : Outcome (Option CachedToken))
      → Keeps P (revoke_cached V n role o)
  unfolding revoke_cached
  Keeps-revoke_cached n role (fail e) = Keeps-pure _
  Keeps-revoke_cached n role (ok none) = Keeps-pure _
  Keeps-revoke_cached n role (ok (some ct)) = Keeps-if _ _ _ (Keeps-pure _) (
      Keeps-bind _ _ (Keeps-attempt _ (Keeps-get_config C role.config))
        (Keeps-revoke_with_config n ct.access_token))

  Keeps-revoke_cached_token_at_salesforce :
      (name : String) (role : Role) → Keeps P (revoke_cached_token_at_salesforce V name (some role))
  unfolding revoke_cached_token_at_salesforce
  Keeps-revoke_cached_token_at_salesforce name role = Keeps-if _ _ _ (Keeps-pure _) (
      Keeps-bind _ _ (Keeps-attempt _ (Keeps-get_cached_token C name))
        (Keeps-revoke_cached name role))

  pub Keeps-rotate_locked :
      (name : String)
      → ((ct : CachedToken) → Keeps P (put_cached_token V name ct))
      → Keeps P (delete_cached_token V name)
      → (cfg : Config)
      → ((form : Form) → Allowed (record { url = effective_token_url cfg; form = form }))
      → (role : Role) → Keeps P (rotate_locked V name cfg role)
  unfolding rotate_locked
  Keeps-rotate_locked name put drop cfg allowed role =
      Keeps-bind _ _ (Keeps-revoke_cached_token_at_salesforce name role) λ _.
        Keeps-bind _ _ drop λ _.
          Keeps-bind _ _ (Keeps-mint_and_cache C name put drop cfg allowed role)
            λ ct. Keeps-bind _ _ (C.log _) λ _. Keeps-pure _
