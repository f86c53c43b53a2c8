-- ===== src/Backend/Handled.antt =====
-- What the handlers of each path of the tables make of a request that the path matches.
use vault_plugin_secrets_sal.Common.{String, ◌≡◌, refl, [], ◌∷◌}
use vault_plugin_secrets_sal.Framework.{
  Framework, create_operation, update_operation, read_operation, delete_operation, list_operation,
  other_operation,
}
use vault_plugin_secrets_sal.Framework.Laws.{IsFramework}
use vault_plugin_secrets_sal.Backend.{Demand, operation, check_existence, handled_by}
use vault_plugin_secrets_sal.Backend.Tables.{
  config_schema, role_schema, name_schema, info_path, config_path, config_list_path, role_path,
  role_list_path, creds_path, token_path, rotate_path,
}
use vault_plugin_secrets_sal.Backend.Routes.{
  info_place, config_list_place, role_list_place, config_place, role_place, creds_place,
  rotate_place, request_at, named_data,
}

module _ {F : Framework} (K : IsFramework F) (n : String) (body : F.Body) where
  -- The name that a handler reads is the one in the path, whatever the data holds.
  pub get_string-config : F.get_string (named_data F config_schema n body) "name" ≡ n
  get_string-config = K.get_string-captured config_schema "name" n body refl

  pub get_string-role : F.get_string (named_data F role_schema n body) "name" ≡ n
  get_string-role = K.get_string-captured role_schema "name" n body refl

  get_string-name : F.get_string (named_data F name_schema n body) "name" ≡ n
  get_string-name = K.get_string-captured name_schema "name" n body refl

  pub handled_by-config :
      (demand : Demand)
      → handled_by F (config_path F) (("name", n) ∷ []) demand body
        ≡ request_at F (config_place n) demand body
  unfolding handled_by
  handled_by-config (operation create_operation) = refl
  handled_by-config (operation update_operation) = refl
  handled_by-config (operation read_operation) = rw get_string-config refl
  handled_by-config (operation delete_operation) = rw get_string-config refl
  handled_by-config (operation list_operation) = refl
  handled_by-config (operation (other_operation o)) = refl
  handled_by-config check_existence = rw get_string-config refl

  pub handled_by-role :
      (demand : Demand)
      → handled_by F (role_path F) (("name", n) ∷ []) demand body
        ≡ request_at F (role_place n) demand body
  unfolding handled_by
  handled_by-role (operation create_operation) = refl
  handled_by-role (operation update_operation) = refl
  handled_by-role (operation read_operation) = rw get_string-role refl
  handled_by-role (operation delete_operation) = rw get_string-role refl
  handled_by-role (operation list_operation) = refl
  handled_by-role (operation (other_operation o)) = refl
  handled_by-role check_existence = rw get_string-role refl

  pub handled_by-creds :
      (demand : Demand)
      → handled_by F (creds_path F) (("name", n) ∷ []) demand body
        ≡ request_at F (creds_place n) demand body
  unfolding handled_by
  handled_by-creds (operation create_operation) = refl
  handled_by-creds (operation update_operation) = refl
  handled_by-creds (operation read_operation) = rw get_string-name refl
  handled_by-creds (operation delete_operation) = refl
  handled_by-creds (operation list_operation) = refl
  handled_by-creds (operation (other_operation o)) = refl
  handled_by-creds check_existence = refl

  -- The alias has the handlers of the credentials.
  pub handled_by-token :
      (demand : Demand)
      → handled_by F (token_path F) (("name", n) ∷ []) demand body
        ≡ request_at F (creds_place n) demand body
  unfolding handled_by
  handled_by-token demand = handled_by-creds demand

  pub handled_by-rotate :
      (demand : Demand)
      → handled_by F (rotate_path F) (("name", n) ∷ []) demand body
        ≡ request_at F (rotate_place n) demand body
  unfolding handled_by
  handled_by-rotate (operation create_operation) = refl
  handled_by-rotate (operation update_operation) = rw get_string-name refl
  handled_by-rotate (operation read_operation) = refl
  handled_by-rotate (operation delete_operation) = refl
  handled_by-rotate (operation list_operation) = refl
  handled_by-rotate (operation (other_operation o)) = refl
  handled_by-rotate check_existence = refl

module _ (F : Framework) (body : F.Body) where
  pub handled_by-info :
      (demand : Demand)
      → handled_by F (info_path F) [] demand body ≡ request_at F info_place demand body
  unfolding handled_by
  handled_by-info (operation create_operation) = refl
  handled_by-info (operation update_operation) = refl
  handled_by-info (operation read_operation) = refl
  handled_by-info (operation delete_operation) = refl
  handled_by-info (operation list_operation) = refl
  handled_by-info (operation (other_operation o)) = refl
  handled_by-info check_existence = refl

  pub handled_by-config_list :
      (demand : Demand)
      → handled_by F (config_list_path F) [] demand body
        ≡ request_at F config_list_place demand body
  unfolding handled_by
  handled_by-config_list (operation create_operation) = refl
  handled_by-config_list (operation update_operation) = refl
  handled_by-config_list (operation read_operation) = refl
  handled_by-config_list (operation delete_operation) = refl
  handled_by-config_list (operation list_operation) = refl
  handled_by-config_list (operation (other_operation o)) = refl
  handled_by-config_list check_existence = refl

  pub handled_by-role_list :
      (demand : Demand)
      → handled_by F (role_list_path F) [] demand body ≡ request_at F role_list_place demand body
  unfolding handled_by
  handled_by-role_list (operation create_operation) = refl
  handled_by-role_list (operation update_operation) = refl
  handled_by-role_list (operation read_operation) = refl
  handled_by-role_list (operation delete_operation) = refl
  handled_by-role_list (operation list_operation) = refl
  handled_by-role_list (operation (other_operation o)) = refl
  handled_by-role_list check_existence = refl
