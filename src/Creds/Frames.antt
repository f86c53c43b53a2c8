-- ===== src/Creds/Frames.antt =====
-- Which entries issuing a token can change: the cached token of its role, and whatever others
-- change while this request waits for the mint lock.
use vault_plugin_secrets_sal.Common.{String, ◌<>◌}
use vault_plugin_secrets_sal.Errors.{Reply}
use vault_plugin_secrets_sal.Config.{Config}
use vault_plugin_secrets_sal.Role.{Role}
use vault_plugin_secrets_sal.Token.{cache_storage_prefix}
use vault_plugin_secrets_sal.Platform.{Platform}
use vault_plugin_secrets_sal.Platform.Laws.{IsLawful}
use vault_plugin_secrets_sal.Action.{Action, State, call}
use vault_plugin_secrets_sal.Action.Keeps.{Keeps, Keeps-bind, Keeps-pure}
use vault_plugin_secrets_sal.Storage.Frames.{
  IsStable, Keeps-put_cached_token, Keeps-delete_cached_token,
}
use vault_plugin_secrets_sal.Client.Frames.{stable_calls}
use vault_plugin_secrets_sal.Creds.{
  mint_token, mint_and_cache, unexpired_cached, then_unlock, issue_token, with_role_config,
  path_creds_read,
}
use vault_plugin_secrets_sal.Creds.Targets

module _ {V : Platform} (L : IsLawful V) {W : String → Type 0} {P : State V → Type 0}
    (st : IsStable L W P) where
  pub Keeps-mint_token : (cfg : Config) (role : Role) → Keeps P (mint_token V cfg role)
  Keeps-mint_token cfg = Targets.Keeps-mint_token (stable_calls L st) cfg (λ _. tt)

  pub Keeps-unexpired_cached : (name : String) → Keeps P (unexpired_cached V name)
  Keeps-unexpired_cached = Targets.Keeps-unexpired_cached (stable_calls L st)

  pub Keeps-then_unlock :
      {A : Type 0} (name : String) (m : Action V A) → Keeps P m → Keeps P (then_unlock V name m)
  Keeps-then_unlock = Targets.Keeps-then_unlock (stable_calls L st)

  pub Keeps-with_role_config :
      {A : Type 0} (name : String) (handle : Config → Role → Action V (Reply A))
      → ((cfg : Config) (role : Role) → Keeps P (handle cfg role))
      → Keeps P (with_role_config V name handle)
  Keeps-with_role_config = Targets.Keeps-with_role_config (stable_calls L st)

  module _ (name : String) (own : W (cache_storage_prefix <> name)) where
    pub Keeps-mint_and_cache :
        (cfg : Config) (role : Role) → Keeps P (mint_and_cache V name cfg role)
    Keeps-mint_and_cache cfg =
        Targets.Keeps-mint_and_cache (stable_calls L st) name
          (λ ct. Keeps-put_cached_token L st name ct own) (Keeps-delete_cached_token L st name own)
          cfg (λ _. tt)

    -- `waited`: what runs while the request waits for the lock keeps the property too.
    module _ (waited : Keeps P (call V (V.lock name))) where
      pub Keeps-issue_token : (cfg : Config) (role : Role) → Keeps P (issue_token V name cfg role)
      Keeps-issue_token cfg =
          Targets.Keeps-issue_token (stable_calls L st) name
            (λ ct. Keeps-put_cached_token L st name ct own)
            (Keeps-delete_cached_token L st name own) waited cfg (λ _. tt)

      pub Keeps-path_creds_read : Keeps P (path_creds_read V name)
      unfolding path_creds_read
      Keeps-path_creds_read =
          Keeps-with_role_config name _
            λ cfg role. Keeps-bind _ _ (Keeps-issue_token cfg role) λ issued. Keeps-pure _
