-- ===== src/Role/Frames.antt =====
-- Which entries the role handlers can change, and which roles a write stores.
use vault_plugin_secrets_sal.Common.{String, ◌<>◌, ◌≡◌, none, arith}
use vault_plugin_secrets_sal.Errors.{ok}
use vault_plugin_secrets_sal.Role.{Role, roles_storage_prefix}
use vault_plugin_secrets_sal.Token.{cache_storage_prefix}
use vault_plugin_secrets_sal.Platform.{Platform}
use vault_plugin_secrets_sal.Platform.Laws.{IsLawful}
use vault_plugin_secrets_sal.Action.{State, try_call, ◌>>=◌}
use vault_plugin_secrets_sal.Action.Keeps.{
  Keeps, Keeps-bind, Keeps-bind-result, Keeps-if, Keeps-pure, Keeps-option_eq, Keeps-attempt,
  Keeps-bind-lift,
}
use vault_plugin_secrets_sal.Storage.Frames.{
  IsStable, Keeps-list, Keeps-get_config, Keeps-get_role, Keeps-delete_cached_token,
}
use vault_plugin_secrets_sal.Role.Handlers.{
  RoleFields, merge_role, or_no_role, identity_refusal, role_refusal, validate_role, store_role,
  check_and_store_role, write_role_over, path_role_write, path_role_read, path_role_delete,
  path_role_list, path_role_existence_check,
}

module _ {V : Platform} (L : IsLawful V) {W : String → Type 0} {P : State V → Type 0}
    (st : IsStable L W P) where
  pub Keeps-path_role_read : (name : String) → Keeps P (path_role_read V name)
  unfolding path_role_read
  Keeps-path_role_read name =
      Keeps-bind _ _ (Keeps-get_role L st name)
        λ role. Keeps-option_eq role _ _ (λ _. Keeps-pure _) (λ _ _. Keeps-pure _)

  pub Keeps-path_role_list : Keeps P (path_role_list V)
  unfolding path_role_list
  Keeps-path_role_list = Keeps-bind _ _ (Keeps-list L st _) λ _. Keeps-pure _

  pub Keeps-path_role_existence_check : (name : String) → Keeps P (path_role_existence_check V name)
  unfolding path_role_existence_check
  Keeps-path_role_existence_check name =
      Keeps-bind _ _ (Keeps-get_role L st name)
        λ role. Keeps-option_eq role _ _ (λ _. Keeps-pure _) (λ _ _. Keeps-pure _)

  -- A role is accepted only if it passes the checks on its own fields.
  validate_role-passed :
      (role : Role) (s : State V) → (validate_role V role s).0 ≡ ok none → role_refusal role ≡ none
  unfolding validate_role ◌>>=◌
  validate_role-passed role s h = ground arith

  pub Keeps-validate_role : (role : Role) → Keeps P (validate_role V role)
  unfolding validate_role
  Keeps-validate_role role =
      Keeps-option_eq (role_refusal role) _ _
        (λ _.
          Keeps-bind _ _ (Keeps-attempt _ (Keeps-get_config L st role.config)) λ _. Keeps-pure _)
        (λ _ _. Keeps-pure _)

  -- Storing is reached only with a role that passes the checks.
  Keeps-check_and_store_role :
      (name : String) (role : Role)
      → (role_refusal role ≡ none → Keeps P (store_role V name role))
      → Keeps P (check_and_store_role V name role)
  unfolding check_and_store_role
  Keeps-check_and_store_role name role store =
      Keeps-bind-result _ _ (Keeps-validate_role role) λ refusal s e.
        Keeps-option_eq refusal _ _ (λ n. store (validate_role-passed role s (rw n at e)))
          (λ _ _. Keeps-pure _)

  module _ (all : (name : String) → W (cache_storage_prefix <> name)) where
    -- A write keeps `P` if storing a role that passes the checks does.
    pub Keeps-path_role_write :
        (d : RoleFields)
        → ((role : Role) (e : V.Entry)
            → role_refusal role ≡ none
            → V.role_json.encode role ≡ ok e
            → Keeps P (try_call V (V.storage_put (roles_storage_prefix <> d.name) e)))
        → Keeps P (path_role_write V d)
    unfolding path_role_write write_role_over store_role
    Keeps-path_role_write d put = Keeps-if _ _ _ (Keeps-pure _) (
        Keeps-bind _ _ (Keeps-get_role L st d.name) λ stored.
          Keeps-option_eq (identity_refusal stored (merge_role d (or_no_role stored))) _ _
            (λ _. Keeps-check_and_store_role d.name _ λ passed. Keeps-bind-lift _ _ λ e encoded.
              Keeps-bind _ _ (put _ e passed encoded) λ _.
                Keeps-bind _ _ (Keeps-delete_cached_token L st d.name (all d.name))
                  λ _. Keeps-if _ _ _ (Keeps-pure _) (Keeps-pure _))
            (λ _ _. Keeps-pure _))

    pub Keeps-path_role_delete :
        (name : String)
        → Keeps P (try_call V (V.storage_delete (roles_storage_prefix <> name)))
        → Keeps P (path_role_delete V name)
    unfolding path_role_delete
    Keeps-path_role_delete name del =
        Keeps-bind _ _ (Keeps-delete_cached_token L st name (all name))
          λ _. Keeps-bind _ _ del λ _. Keeps-pure _
