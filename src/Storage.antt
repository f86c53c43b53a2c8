-- ===== src/Storage.antt =====
-- Typed access to the storage: `getConfig` (path_config.go), `getRole` (path_roles.go), and the
-- token cache (cache.go) without its revocation.
pub mod Stored
pub mod Reads
pub mod Frames
pub mod AllStored
pub mod Purge
use vault_plugin_secrets_sal.Common.{
  String, ◌<>◌, Option, none, some, List, [], ◌∷◌, ◌==◌, if◌then◌else◌,
}
use vault_plugin_secrets_sal.Errors.{Outcome, ok, fail}
use vault_plugin_secrets_sal.Config.{Config, config_storage_prefix}
use vault_plugin_secrets_sal.Role.{Role, roles_storage_prefix}
use vault_plugin_secrets_sal.Token.{CachedToken, cache_storage_prefix}
use vault_plugin_secrets_sal.Platform.{Platform, Codec}
use vault_plugin_secrets_sal.Action.{Action, pure, lift, try_call, ◌>>=◌, ◌>>◌}

-- A missing entry is `nil`, a present one is decoded.
unfoldable pub decoded : {E A : Type 0} → Codec E A → Option E → Outcome (Option A)
decoded codec none = ok none
decoded codec (some entry) = elim (codec.decode entry) [ ok a ↦ ok (some a) | fail e ↦ fail e ]

module _ (V : Platform) where
  unfoldable pub get_config : String → Action V (Option Config)
  get_config name = do
    entry ← try_call V (V.storage_get (config_storage_prefix <> name))
    lift (decoded V.config_json entry)

  unfoldable pub get_role : String → Action V (Option Role)
  get_role name = do
    entry ← try_call V (V.storage_get (roles_storage_prefix <> name))
    lift (decoded V.role_json entry)

  unfoldable pub get_cached_token : String → Action V (Option CachedToken)
  get_cached_token role = do
    entry ← try_call V (V.storage_get (cache_storage_prefix <> role))
    lift (decoded V.token_json entry)

  unfoldable pub put_cached_token : String → CachedToken → Action V (Unit {0})
  put_cached_token role ct = do
    text ← lift (V.token_json.encode ct)
    try_call V (V.storage_put (cache_storage_prefix <> role) text)

  unfoldable pub delete_cached_token : String → Action V (Unit {0})
  delete_cached_token role = try_call V (V.storage_delete (cache_storage_prefix <> role))

  -- The body of the loop over the names of all roles.
  unfoldable pub delete_if_bound : String → String → Option Role → Action V (Unit {0})
  delete_if_bound config_name name none = pure tt
  delete_if_bound config_name name (some role) =
      if role.config == config_name then delete_cached_token name else pure tt

  unfoldable pub delete_each_bound : String → List String → Action V (Unit {0})
  delete_each_bound config_name [] = pure tt
  delete_each_bound config_name (name ∷ names) = do
    role ← get_role name
    delete_if_bound config_name name role
    delete_each_bound config_name names

  unfoldable pub delete_cached_tokens_for_config : String → Action V (Unit {0})
  delete_cached_tokens_for_config config_name = do
    names ← try_call V (V.storage_list roles_storage_prefix)
    delete_each_bound config_name names
