-- ===== src/Creds/Targets.antt =====
-- What the calls of minting and issuing a token keep, all of them do (path_creds.go).
use vault_plugin_secrets_sal.Common.{String, Option, none, some}
use vault_plugin_secrets_sal.Errors.{Error, Outcome, ok, fail, Reply}
use vault_plugin_secrets_sal.Config.{Config, effective_token_url}
use vault_plugin_secrets_sal.Role.{Role}
use vault_plugin_secrets_sal.Token.{CachedToken}
use vault_plugin_secrets_sal.Platform.{Platform, HttpRequest}
use vault_plugin_secrets_sal.Action.{Action, State, call}
use vault_plugin_secrets_sal.Action.Keeps.{
  Keeps, Keeps-bind, Keeps-if, Keeps-option, Keeps-pure, Keeps-raise, Keeps-lift, Keeps-attempt,
  keeps_rules,
}
use vault_plugin_secrets_sal.Storage.{
  get_config, get_role, get_cached_token, put_cached_token, delete_cached_token,
}
use vault_plugin_secrets_sal.Client.{Form}
use vault_plugin_secrets_sal.Client.Targets.{
  Calls, Keeps-request_client_credentials_token, Keeps-request_jwt_bearer_token,
}
use vault_plugin_secrets_sal.Creds.{
  mint_token, mint_and_cache, fresh_or_none, fresh_cached, unexpired_or_none, unexpired_cached,
  fail_closed, serve_or_fail, after_mint, issue_locked, then_unlock, issue_contended, issue_token,
  with_role_config,
}

module _ {V : Platform} {P : State V → Type 0} {Allowed : HttpRequest → Type 0}
    (C : Calls V P Allowed) where
  pub Keeps-get_role : (name : String) → Keeps P (get_role V name)
  unfolding get_role
  Keeps-get_role name = search (keeps_rules, C.get)

  pub Keeps-get_config : (name : String) → Keeps P (get_config V name)
  unfolding get_config
  Keeps-get_config name = search (keeps_rules, C.get)

  pub Keeps-get_cached_token : (name : String) → Keeps P (get_cached_token V name)
  unfolding get_cached_token
  Keeps-get_cached_token name = search (keeps_rules, C.get)

  pub Keeps-mint_token :
      (cfg : Config)
      (allowed : (form : Form) → Allowed (record { url = effective_token_url cfg; form = form }))
      (role : Role)
      → Keeps P (mint_token V cfg role)
  unfolding mint_token
  Keeps-mint_token cfg allowed role =
      Keeps-if _ _ _ (Keeps-request_client_credentials_token C cfg allowed)
        (Keeps-if _ _ _ (Keeps-request_jwt_bearer_token C cfg allowed role) (Keeps-raise _))

  Keeps-fresh_or_none : (role : Role) (ct : Option CachedToken) → Keeps P (fresh_or_none V role ct)
  unfolding fresh_or_none
  Keeps-fresh_or_none role none = Keeps-pure _
  Keeps-fresh_or_none role (some ct) = Keeps-bind _ _ (C.now) λ now. Keeps-pure _

  Keeps-fresh_cached : (name : String) (role : Role) → Keeps P (fresh_cached V name role)
  unfolding fresh_cached
  Keeps-fresh_cached name role =
      Keeps-bind _ _ (Keeps-get_cached_token name) (Keeps-fresh_or_none role)

  Keeps-unexpired_or_none : (r : Outcome (Option CachedToken)) → Keeps P (unexpired_or_none V r)
  unfolding unexpired_or_none
  Keeps-unexpired_or_none (fail e) = Keeps-pure _
  Keeps-unexpired_or_none (ok none) = Keeps-pure _
  Keeps-unexpired_or_none (ok (some ct)) = Keeps-bind _ _ (C.now) λ now. Keeps-pure _

  pub Keeps-unexpired_cached : (name : String) → Keeps P (unexpired_cached V name)
  unfolding unexpired_cached
  Keeps-unexpired_cached name =
      Keeps-bind _ _ (Keeps-attempt _ (Keeps-get_cached_token name)) Keeps-unexpired_or_none

  pub Keeps-then_unlock :
      {A : Type 0} (name : String) (m : Action V A) → Keeps P m → Keeps P (then_unlock V name m)
  unfolding then_unlock
  Keeps-then_unlock name m k =
      Keeps-bind _ _ (Keeps-attempt m k) λ r. Keeps-bind _ _ (C.unlock name) λ _. Keeps-lift r

  pub Keeps-with_role_config :
      {A : Type 0} (name : String) (handle : Config → Role → Action V (Reply A))
      → ((cfg : Config) (role : Role) → Keeps P (handle cfg role))
      → Keeps P (with_role_config V name handle)
  unfolding with_role_config
  Keeps-with_role_config name handle k = Keeps-bind _ _ (Keeps-get_role name) λ role.
      Keeps-option role _ _ (Keeps-pure _) λ r.
        Keeps-bind _ _ (Keeps-get_config r.config)
          λ cfg. Keeps-option cfg _ _ (Keeps-pure _) (λ c. k c r)

  module _ (name : String) (put : (ct : CachedToken) → Keeps P (put_cached_token V name ct))
      (drop : Keeps P (delete_cached_token V name)) where
    pub Keeps-mint_and_cache :
        (cfg : Config)
        (allowed : (form : Form) → Allowed (record { url = effective_token_url cfg; form = form }))
        (role : Role)
        → Keeps P (mint_and_cache V name cfg role)
    unfolding mint_and_cache
    Keeps-mint_and_cache cfg allowed role = Keeps-bind _ _ (C.now) λ now.
        Keeps-bind _ _ (Keeps-mint_token cfg allowed role)
          λ res. Keeps-bind _ _ (put _) λ _. Keeps-bind _ _ (C.log _) λ _. Keeps-pure _

    Keeps-fail_closed : (e : Error) → Keeps P (fail_closed V name e)
    unfolding fail_closed
    Keeps-fail_closed e = Keeps-if _ _ _ (Keeps-bind _ _ (drop) λ _. Keeps-raise e) (Keeps-raise e)

    Keeps-serve_or_fail :
        (e : Error) (ct : Option CachedToken) → Keeps P (serve_or_fail V name e ct)
    unfolding serve_or_fail
    Keeps-serve_or_fail e none = Keeps-fail_closed e
    Keeps-serve_or_fail e (some ct) =
        Keeps-if _ _ _ (Keeps-bind _ _ (C.log _) λ _. Keeps-pure _) (Keeps-fail_closed e)

    Keeps-after_mint : (r : Outcome CachedToken) → Keeps P (after_mint V name r)
    unfolding after_mint
    Keeps-after_mint (ok ct) = Keeps-pure _
    Keeps-after_mint (fail e) = Keeps-bind _ _ (Keeps-unexpired_cached name) (Keeps-serve_or_fail e)

    Keeps-issue_locked :
        (cfg : Config)
        (allowed : (form : Form) → Allowed (record { url = effective_token_url cfg; form = form }))
        (role : Role)
        → Keeps P (issue_locked V name cfg role)
    unfolding issue_locked
    Keeps-issue_locked cfg allowed role = Keeps-bind _ _ (Keeps-fresh_cached name role) λ hit.
        Keeps-option hit _ _
          (Keeps-bind _ _ (Keeps-attempt _ (Keeps-mint_and_cache cfg allowed role))
            Keeps-after_mint)
          (λ ct. Keeps-pure _)

    -- `waited`: what runs while the request waits for the lock keeps the property too.
    module _ (waited : Keeps P (call V (V.lock name))) where
      Keeps-issue_contended :
          (cfg : Config)
          (allowed : (form : Form)
            → Allowed (record { url = effective_token_url cfg; form = form }))
          (role : Role)
          → Keeps P (issue_contended V name cfg role)
      unfolding issue_contended
      Keeps-issue_contended cfg allowed role =
          Keeps-bind _ _ (Keeps-unexpired_cached name) λ usable.
            Keeps-option usable _ _
              (Keeps-bind _ _ waited
                λ _. Keeps-then_unlock name _ (Keeps-issue_locked cfg allowed role))
              (λ ct. Keeps-pure _)

      pub Keeps-issue_token :
          (cfg : Config)
          (allowed : (form : Form)
            → Allowed (record { url = effective_token_url cfg; form = form }))
          (role : Role)
          → Keeps P (issue_token V name cfg role)
      unfolding issue_token
      Keeps-issue_token cfg allowed role = Keeps-bind _ _ (Keeps-fresh_cached name role) λ hit.
          Keeps-option hit _ _
            (Keeps-bind _ _ (C.try_lock name) λ locked.
              Keeps-if locked _ _ (Keeps-then_unlock name _ (Keeps-issue_locked cfg allowed role))
                (Keeps-issue_contended cfg allowed role))
            (λ ct. Keeps-pure _)
