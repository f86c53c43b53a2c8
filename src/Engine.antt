-- ===== src/Engine.antt =====
-- Every request that Vault can send to the engine, by the path and the operation that route it
-- (the `Operations` of the path tables and of the secret type).
pub mod Invariant
pub mod Recorded
pub mod Egress
use vault_plugin_secrets_sal.Common.{String, List, [], ◌∷◌}
use vault_plugin_secrets_sal.Platform.{Platform}
use vault_plugin_secrets_sal.Action.{Action, State, pure, ◌>>=◌, ◌>>◌}
use vault_plugin_secrets_sal.Config.Handlers.{
  ConfigFields, path_config_write, path_config_read, path_config_delete, path_config_list,
  path_config_existence_check,
}
use vault_plugin_secrets_sal.Role.Handlers.{
  RoleFields, path_role_write, path_role_read, path_role_delete, path_role_list,
  path_role_existence_check,
}
use vault_plugin_secrets_sal.Creds.{path_creds_read}
use vault_plugin_secrets_sal.Info.{path_info_read}
use vault_plugin_secrets_sal.Lease.{
  InternalRole, LeaseSecret, path_rotate, secret_access_token_revoke, secret_access_token_renew,
}

pub data Request : Type 0 where
  info_read : Request
  config_write : ConfigFields → Request
  config_read config_delete config_exists : String → Request
  config_list : Request
  role_write : RoleFields → Request
  role_read role_delete role_exists : String → Request
  role_list : Request
  creds_read : String → Request
  rotate : String → Request
  lease_revoke : InternalRole → Request
  lease_renew : LeaseSecret → Request

module _ (V : Platform) where
  -- A request, its reply dropped. `token/<name>` has the handler of `creds/<name>`.
  unfoldable pub serve : Request → Action V (Unit {0})
  serve info_read = do path_info_read V; pure tt
  serve (config_write d) = do path_config_write V d; pure tt
  serve (config_read name) = do path_config_read V name; pure tt
  serve (config_delete name) = do path_config_delete V name; pure tt
  serve (config_exists name) = do path_config_existence_check V name; pure tt
  serve config_list = do path_config_list V; pure tt
  serve (role_write d) = do path_role_write V d; pure tt
  serve (role_read name) = do path_role_read V name; pure tt
  serve (role_delete name) = do path_role_delete V name; pure tt
  serve (role_exists name) = do path_role_existence_check V name; pure tt
  serve role_list = do path_role_list V; pure tt
  serve (creds_read name) = do path_creds_read V name; pure tt
  serve (rotate name) = do path_rotate V name; pure tt
  serve (lease_revoke internal) = do secret_access_token_revoke V internal; pure tt
  serve (lease_renew secret) = do secret_access_token_renew V secret; pure tt

  -- Requests one after the other.
  unfoldable pub serve_all : List Request → State V → State V
  serve_all [] s = s
  serve_all (r ∷ requests) s = serve_all requests (serve r s).1
