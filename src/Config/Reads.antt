-- ===== src/Config/Reads.antt =====
-- What a read of config/<name> gives back, and what a delete leaves behind (path_config.go).
use vault_plugin_secrets_sal.Common.{
  String, ◌<>◌, ◌≡◌, ◌∙◌, true, Option, none, some, on_nil, inl, inr,
}
use vault_plugin_secrets_sal.Errors.{ok, Reply, empty, respond}
use vault_plugin_secrets_sal.Config.{Config, config_storage_prefix, RedactedMap, redacted_map}
use vault_plugin_secrets_sal.Role.{Role}
use vault_plugin_secrets_sal.Token.{cache_storage_prefix}
use vault_plugin_secrets_sal.Platform.{Platform}
use vault_plugin_secrets_sal.Platform.Laws.{IsLawful, is_flat}
use vault_plugin_secrets_sal.Action.{Action, State, try_call, pure, ◌>>◌}
use vault_plugin_secrets_sal.Action.Inversion.{bind-ok}
use vault_plugin_secrets_sal.Storage.{get_config, delete_cached_tokens_for_config}
use vault_plugin_secrets_sal.Storage.Stored.{entry, stored_config, stored_role}
use vault_plugin_secrets_sal.Storage.Reads.{get_config-stored}
use vault_plugin_secrets_sal.Storage.Purge.{delete_cached_tokens_for_config-gone}
use vault_plugin_secrets_sal.Config.Handlers.{path_config_read, path_config_delete}

module _ {V : Platform} (L : IsLawful V) (name : String) (s : State V) where
  answered :
      (o : Option Config) (t : State V) {reply : Reply RedactedMap}
      → (on_nil {B = Action V (Reply RedactedMap)} o
          (pure empty)
          (λ c. pure (respond (redacted_map c)))
          t).0
        ≡ ok reply
      → reply ≡ on_nil o empty (λ c. respond (redacted_map c))
  unfolding pure
  answered none t h = cc
  answered (some c) t h = cc

  -- A read that succeeds answers with the redacted view of the stored configuration, or with nothing
  -- where none is stored.
  path_config_read-stored_config :
      (reply : Reply RedactedMap)
      → (path_config_read V name s).0 ≡ ok reply
      → (o : Option Config) × (stored_config L s name ≡ ok o)
        × (reply ≡ on_nil o empty (λ c. respond (redacted_map c)))
  unfolding path_config_read
  path_config_read-stored_config reply h =
      let answer : Option Config → Action V (Reply RedactedMap) =
        λ o. on_nil o (pure empty) (λ c. pure (respond (redacted_map c))) in
      let (o, got, e) = bind-ok (get_config V name) answer s h in
      (o, get_config-stored L name s got, answered o _ (rw e at h))

  -- After a delete that succeeds, the configuration is not stored, and no role of a flat name that
  -- was bound to it has a cached token.
  pub path_config_delete-gone :
      (reply : Reply (Unit {0}))
      → (path_config_delete V name s).0 ≡ ok reply
      → (entry L (path_config_delete V name s).1 (config_storage_prefix <> name) ≡ none)
        × ((role_name : String) (r : Role)
            → is_flat role_name ≡ true
            → stored_role L s role_name ≡ ok (some r)
            → r.config ≡ name
            → entry L (path_config_delete V name s).1 (cache_storage_prefix <> role_name) ≡ none)
  unfolding path_config_delete pure try_call
  path_config_delete-gone reply h =
      let key = config_storage_prefix <> name in
      let forget = try_call V (V.storage_delete key) in
      let finish : Action V (Reply (Unit {0})) = pure empty in
      let purge = delete_cached_tokens_for_config V name in
      let (_, purged, e) = bind-ok purge (λ _. forget >> finish) s h in
      let t = (purge s).1 in
      let (_, deleted, f) = bind-ok forget (λ _. finish) t (rw e at h) in
      rw (e, f)
        (
          L.storage.delete-view key t.world deleted,
          λ role_name r flat held bound.
              let gone =
                delete_cached_tokens_for_config-gone L name r bound role_name s flat held purged in
              elim (L.storage.view-delete key t.world (cache_storage_prefix <> role_name)) [
                | inl same ↦ same ∙ gone
                | inr (_, none_left) ↦ none_left
              ],
        )
