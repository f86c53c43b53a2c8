-- ===== src/Engine/Invariant.antt =====
-- What holds of everything stored, whatever requests come, and fails or not.
use vault_plugin_secrets_sal.Common.{
  String, ◌<>◌, ◌≡◌, refl, sym, Option, none, List, [], ◌∷◌, arith,
}
use vault_plugin_secrets_sal.Common.Text.{config-ne-cache, role-ne-cache, role-ne-config}
use vault_plugin_secrets_sal.Errors.{ok}
use vault_plugin_secrets_sal.Config.{Config, config_storage_prefix, effective_token_url}
use vault_plugin_secrets_sal.Role.{Role, roles_storage_prefix}
use vault_plugin_secrets_sal.Token.{cache_storage_prefix}
use vault_plugin_secrets_sal.Platform.{Platform}
use vault_plugin_secrets_sal.Platform.Laws.{IsLawful}
use vault_plugin_secrets_sal.Action.{Action, State, call, try_call, pure, ◌>>◌}
use vault_plugin_secrets_sal.Action.Keeps.{Keeps, Keeps-bind, Keeps-pure}
use vault_plugin_secrets_sal.HostCheck.{validate_token_host}
use vault_plugin_secrets_sal.Storage.Frames.{IsStable, Keeps-put}
use vault_plugin_secrets_sal.Storage.AllStored.{
  AllStored, AllStored-IsStable, AllStored-put, AllStored-delete,
}
use vault_plugin_secrets_sal.Config.Handlers.{ConfigFields, config_refusal}
use vault_plugin_secrets_sal.Config.Frames.{
  Keeps-path_config_write, Keeps-path_config_read, Keeps-path_config_delete, Keeps-path_config_list,
  Keeps-path_config_existence_check,
}
use vault_plugin_secrets_sal.Role.Handlers.{RoleFields, role_refusal}
use vault_plugin_secrets_sal.Role.Frames.{
  Keeps-path_role_write, Keeps-path_role_read, Keeps-path_role_delete, Keeps-path_role_list,
  Keeps-path_role_existence_check,
}
use vault_plugin_secrets_sal.Creds.Frames.{Keeps-path_creds_read}
use vault_plugin_secrets_sal.Lease.Frames.{
  Keeps-path_rotate, Keeps-secret_access_token_revoke, Keeps-secret_access_token_renew,
}
use vault_plugin_secrets_sal.Info.{path_info_read}
use vault_plugin_secrets_sal.Engine.{
  Request, info_read, config_write, config_read, config_delete, config_exists, config_list,
  role_write, role_read, role_delete, role_exists, role_list, creds_read, rotate, lease_revoke,
  lease_renew, serve, serve_all,
}

-- The keys of cached tokens.
abbrev IsCacheKey : String → Type 0
IsCacheKey j = (n : String) × (j ≡ cache_storage_prefix <> n)

is_cache_key : (n : String) → IsCacheKey (cache_storage_prefix <> n)
is_cache_key n = (n, refl)

-- A configuration whose token endpoint passes the host check, and a role that passes its checks.
abbrev pub IsVetted : Platform → Config → Type 0
IsVetted V c = validate_token_host V (effective_token_url c) c.allow_non_salesforce_host ≡ none

abbrev pub IsChecked : Role → Type 0
IsChecked r = role_refusal r ≡ none

config_refusal-IsVetted :
    (V : Platform) (stored : Option Config) (d : ConfigFields) (cfg : Config)
    → config_refusal V stored d cfg ≡ none
    → IsVetted V cfg
unfolding config_refusal
config_refusal-IsVetted V stored d cfg h = ground arith

-- A request keeps `P` if `P` depends on no cached token, and what a write stores or a delete
-- removes keeps it; where a write names its role as `Named` says.
module _ {V : Platform} (L : IsLawful V) {P : State V → Type 0} (st : IsStable L IsCacheKey P)
    (waited : (k : String) → Keeps P (call V (V.lock k)))
    (put_config : (name : String) (cfg : Config) (e : V.Entry)
      → IsVetted V cfg
      → V.config_json.encode cfg ≡ ok e
      → Keeps P (try_call V (V.storage_put (config_storage_prefix <> name) e)))
    (Named : String → Type 0)
    (put_role : (name : String) (role : Role) (e : V.Entry)
      → Named name
      → IsChecked role
      → V.role_json.encode role ≡ ok e
      → Keeps P (try_call V (V.storage_put (roles_storage_prefix <> name) e)))
    (delete_any : (k : String) → Keeps P (try_call V (V.storage_delete k))) where
  done : {A : Type 0} (m : Action V A) → Keeps P m → Keeps P (m >> pure tt)
  done m k = Keeps-bind m _ k λ _. Keeps-pure tt

  pub Keeps-serve :
      (r : Request) → ((d : RoleFields) → r ≡ role_write d → Named d.name) → Keeps P (serve V r)
  unfolding serve path_info_read
  Keeps-serve info_read named = done _ (Keeps-pure _)
  Keeps-serve (config_write d) named = done _ (
      Keeps-path_config_write L st is_cache_key d λ stored e accepted encoded.
        put_config d.name _ e (config_refusal-IsVetted V stored d _ accepted) encoded)
  Keeps-serve (config_read name) named = done _ (Keeps-path_config_read L st name)
  Keeps-serve (config_delete name) named =
      done _ (Keeps-path_config_delete L st is_cache_key name (delete_any _))
  Keeps-serve (config_exists name) named = done _ (Keeps-path_config_existence_check L st name)
  Keeps-serve config_list named = done _ (Keeps-path_config_list L st)
  Keeps-serve (role_write d) named =
      done _ (
        Keeps-path_role_write L st is_cache_key d (λ role e. put_role d.name role e (named d refl)))
  Keeps-serve (role_read name) named = done _ (Keeps-path_role_read L st name)
  Keeps-serve (role_delete name) named =
      done _ (Keeps-path_role_delete L st is_cache_key name (delete_any _))
  Keeps-serve (role_exists name) named = done _ (Keeps-path_role_existence_check L st name)
  Keeps-serve role_list named = done _ (Keeps-path_role_list L st)
  Keeps-serve (creds_read name) named =
      done _ (Keeps-path_creds_read L st name (is_cache_key name) (waited name))
  Keeps-serve (rotate name) named = done _ (Keeps-path_rotate L st is_cache_key name (waited name))
  Keeps-serve (lease_revoke internal) named =
      done _ (Keeps-secret_access_token_revoke L st is_cache_key internal)
  Keeps-serve (lease_renew secret) named = done _ (Keeps-secret_access_token_renew L st secret)

module _ {V : Platform} (L : IsLawful V) where
  -- Every stored configuration names a vetted token endpoint.
  abbrev pub ConfigsVetted : State V → Type 0
  ConfigsVetted = AllStored L V.config_json config_storage_prefix (λ _. IsVetted V)

  -- Every stored role passes the checks on its fields.
  abbrev pub RolesChecked : State V → Type 0
  RolesChecked = AllStored L V.role_json roles_storage_prefix (λ _. IsChecked)

  pub record IsSound (s : State V) : Type 0 where
    pub configs : ConfigsVetted s
    pub roles : RolesChecked s

  module _ (waited_configs : (k : String) → Keeps ConfigsVetted (call V (V.lock k)))
      (waited_roles : (k : String) → Keeps RolesChecked (call V (V.lock k))) where
    Keeps-ConfigsVetted : (r : Request) → Keeps ConfigsVetted (serve V r)
    Keeps-ConfigsVetted r =
        let stable = AllStored-IsStable L V.config_json config_storage_prefix (λ _. IsVetted V) in
        Keeps-serve L (stable IsCacheKey λ n (m, e). config-ne-cache n m e) waited_configs
          (λ name cfg e v c. AllStored-put L V.config_json _ _ L.config_json name cfg e c v)
          (λ _. Unit)
          (λ name role e _ _ _.
            Keeps-put L
              (stable (λ j. j ≡ roles_storage_prefix <> name) λ n p. role-ne-config name n (sym p))
              _ e refl)
          (AllStored-delete L V.config_json _ _) r (λ d e. tt)

    Keeps-RolesChecked : (r : Request) → Keeps RolesChecked (serve V r)
    Keeps-RolesChecked r =
        let stable = AllStored-IsStable L V.role_json roles_storage_prefix (λ _. IsChecked) in
        Keeps-serve L (stable IsCacheKey λ n (m, e). role-ne-cache n m e) waited_roles
          (λ name cfg e _ _.
            Keeps-put L
              (stable (λ j. j ≡ config_storage_prefix <> name) λ n p. role-ne-config n name p) _ e
              refl)
          (λ _. Unit)
          (λ name role e _ v c. AllStored-put L V.role_json _ _ L.role_json name role e c v)
          (AllStored-delete L V.role_json _ _) r (λ d e. tt)

    -- Whatever requests come, and whether they succeed or fail, every stored configuration names a
    -- token endpoint that passes the host check, and every stored role passes the checks on its
    -- fields, if that held before and if what others do while a request waits for a mint lock
    -- keeps it.
    pub serve_all-IsSound :
        (requests : List Request) (s : State V) → IsSound s → IsSound (serve_all V requests s)
    unfolding serve_all
    serve_all-IsSound [] s h = h
    serve_all-IsSound (r ∷ requests) s h = serve_all-IsSound requests (serve V r s).1 (record {
      configs = (Keeps-ConfigsVetted r).at s h.configs;
      roles = (Keeps-RolesChecked r).at s h.roles;
    })
