-- ===== src/Config/Renewal.antt =====
-- A write of a configuration and then a read of credentials: the token is of the new configuration.
use vault_plugin_secrets_sal.Common.{String, ◌<>◌, ◌≡◌, true, Option, none, some}
use vault_plugin_secrets_sal.Errors.{ok, empty, respond}
use vault_plugin_secrets_sal.Config.{Config}
use vault_plugin_secrets_sal.Role.{Role}
use vault_plugin_secrets_sal.Token.{CachedToken, cache_storage_prefix}
use vault_plugin_secrets_sal.Platform.{Platform}
use vault_plugin_secrets_sal.Platform.Laws.{IsLawful, is_flat}
use vault_plugin_secrets_sal.Action.{State, call}
use vault_plugin_secrets_sal.Action.Keeps.{Keeps}
use vault_plugin_secrets_sal.Storage.{decoded}
use vault_plugin_secrets_sal.Storage.Stored.{entry, stored_config, stored_role, SameEntries}
use vault_plugin_secrets_sal.Config.Handlers.{
  ConfigFields, merge_config, or_no_config, path_config_write,
}
use vault_plugin_secrets_sal.Config.Writes.{
  path_config_write-stored_config, path_config_write-purges, path_config_write-stored_role,
}
use vault_plugin_secrets_sal.Creds.{IssuedSecret, path_creds_read}
use vault_plugin_secrets_sal.Creds.Reads.{told, path_creds_read-Granted}
use vault_plugin_secrets_sal.Creds.Afresh.{MintedFor, CachedFor, issue_token-IsMinted}

module _ {V : Platform} (L : IsLawful V) (name : String) where
  nothing_cached :
      (s t : State V) (cfg : Config) (role : Role)
      → entry L s (cache_storage_prefix <> name) ≡ none
      → SameEntries L s t
      → CachedFor L name cfg role t
  unfolding decoded
  nothing_cached s t cfg role gone same ct e =
      cc (rw (same (cache_storage_prefix <> name), gone) at e)

  -- Where no token of the role is cached, a read that answers with a token answers with one that was
  -- minted for the stored role under its stored configuration, if what others do while it waits
  -- for the mint lock caches no other token of the role.
  path_creds_read-minted :
      (waited : (cfg : Config) (role : Role)
        → Keeps (CachedFor L name cfg role) (call V (V.lock name)))
      → (s : State V) (secret : IssuedSecret) → entry L s (cache_storage_prefix <> name) ≡ none
      → (path_creds_read V name s).0 ≡ ok (respond secret)
      → (role : Role) × (cfg : Config) × (ct : CachedToken) × (stored_role L s name
          ≡ ok (some role))
        × (stored_config L s role.config ≡ ok (some cfg))
        × (secret ≡ told L name s role ct secret.cached)
        × MintedFor V cfg role ct
  path_creds_read-minted waited s secret gone =
      path_creds_read-Granted L name s (λ role cfg r t. MintedFor V cfg role r.0)
        (λ role cfg. record {
          at = λ t same h.
              (issue_token-IsMinted L name cfg role (waited cfg role)).result t
                (nothing_cached s t cfg role gone same) h;
        })
        secret

  -- After a write of a configuration that succeeds, a read of a role that is bound to it, if it
  -- answers with a token, answers with one that was minted for the role under the new
  -- configuration, if what others do while the read waits for the mint lock caches no other token
  -- of the role.
  pub path_creds_read-renewed :
      (waited : (cfg : Config) (role : Role)
        → Keeps (CachedFor L name cfg role) (call V (V.lock name)))
      → (d : ConfigFields) (s : State V) (role : Role) (secret : IssuedSecret)
      → (path_config_write V d s).0 ≡ ok empty
      → is_flat name ≡ true
      → stored_role L s name ≡ ok (some role)
      → role.config ≡ d.name
      → (path_creds_read V name (path_config_write V d s).1).0 ≡ ok (respond secret)
      → (old : Option Config) × (ct : CachedToken) × (stored_config L s d.name ≡ ok old)
        × (secret ≡ told L name s role ct secret.cached)
        × MintedFor V (merge_config d (or_no_config old)) role ct
  path_creds_read-renewed waited d s role secret accepted flat held bound answered =
      let t = (path_config_write V d s).1 in
      let gone = path_config_write-purges L d s accepted name role flat held bound in
      let (old, was, _, now) = path_config_write-stored_config L d s accepted in
      let (r, cfg, ct, found, configured, same, minted) =
        path_creds_read-minted waited t secret gone answered in
      let here : r ≡ role = cc (found, held, path_config_write-stored_role L d s accepted name) in
      let new : cfg ≡ merge_config d (or_no_config old) = cc (now, configured, here, bound) in
      (old, ct, was, rw here at same, rw (here, new) at minted)
