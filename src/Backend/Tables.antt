-- ===== src/Backend/Tables.antt =====
-- The path tables of path_info.go, path_config.go, path_roles.go, path_creds.go and path_rotate.go,
-- and the secret type of secret_access_token.go. A handler is the request of the engine that it
-- serves, made of the data that it is given; descriptions and help texts are left out.
use vault_plugin_secrets_sal.Common.{String, Bool, Option, none, some, List, [], ◌∷◌}
use vault_plugin_secrets_sal.Common.Int.{pos}
use vault_plugin_secrets_sal.Config.Handlers.{ConfigFields}
use vault_plugin_secrets_sal.Role.Handlers.{RoleFields}
use vault_plugin_secrets_sal.Lease.{InternalRole, LeaseSecret}
use vault_plugin_secrets_sal.Framework.{
  Framework, FieldSchema, FieldType, type_string, type_comma_string_slice, type_duration_second,
  type_bool, FieldDefault, no_default, default_seconds, default_flag, Schemas, Pattern, exact,
  named, listing, Operation, create_operation, update_operation, read_operation, delete_operation,
  list_operation,
}
use vault_plugin_secrets_sal.Engine.{
  Request, info_read, config_write, config_read, config_delete, config_exists, config_list,
  role_write, role_read, role_delete, role_exists, role_list, creds_read, rotate, lease_revoke,
  lease_renew,
}

abbrev field : FieldType → FieldSchema
field t = record { field_type = t; default = no_default; required = Bool.false }

abbrev required_name : FieldSchema
required_name = record { field_type = type_string; default = no_default; required = Bool.true }

abbrev with_default : FieldType → FieldDefault → FieldSchema
with_default t value = record { field_type = t; default = value; required = Bool.false }

abbrev pub config_schema : Schemas
config_schema =
    ("name", required_name)
    ∷ ("login_url", field type_string)
    ∷ ("token_url", field type_string)
    ∷ ("client_id", field type_string)
    ∷ ("client_secret", field type_string)
    ∷ ("private_key", field type_string)
    ∷ ("ca_cert", field type_string)
    ∷ ("tls_skip_verify", with_default type_bool (default_flag Bool.false))
    ∷ ("allow_non_salesforce_host", with_default type_bool (default_flag Bool.false))
    ∷ []

abbrev pub role_schema : Schemas
role_schema =
    ("name", required_name)
    ∷ ("config", field type_string)
    ∷ ("grant_type", field type_string)
    ∷ ("username", field type_string)
    ∷ ("scopes", field type_comma_string_slice)
    ∷ ("token_ttl", with_default type_duration_second (default_seconds (pos 900)))
    ∷ ("ttl", field type_duration_second)
    ∷ ("max_ttl", field type_duration_second)
    ∷ ("renew_skew", with_default type_duration_second (default_seconds (pos 60)))
    ∷ ("jwt_expiry", with_default type_duration_second (default_seconds (pos 180)))
    ∷ ("audience", field type_string)
    ∷ ("use_introspection", with_default type_bool (default_flag Bool.false))
    ∷ ("revoke_tokens", with_default type_bool (default_flag Bool.false))
    ∷ []

-- The `fields` of the credentials paths, and the fields of the rotation path.
abbrev pub name_schema : Schemas
name_schema = ("name", required_name) ∷ []

abbrev pub secret_access_token_type : String
secret_access_token_type = "salesforce_access_token"

-- `framework.Secret`: the type of the leases, with its handlers.
pub record Secret : Type 0 where
  pub secret_type : String
  pub fields : Schemas
  pub revoke : InternalRole → Request
  pub renew : LeaseSecret → Request

abbrev pub secret_access_token : Secret
secret_access_token = record {
  secret_type = secret_access_token_type;
  fields = ("access_token", field type_string) ∷ ("instance_url", field type_string) ∷ [];
  revoke = lease_revoke;
  renew = lease_renew;
}

module _ (F : Framework) where
  -- The fields that the handlers read.
  unfoldable pub config_fields : F.FieldData → ConfigFields
  config_fields d = record {
    name = F.get_string d "name";
    login_url = F.get_ok_string d "login_url";
    token_url = F.get_ok_string d "token_url";
    client_id = F.get_ok_string d "client_id";
    client_secret = F.get_ok_string d "client_secret";
    private_key = F.get_ok_string d "private_key";
    ca_cert = F.get_ok_string d "ca_cert";
    tls_skip_verify = F.get_ok_bool d "tls_skip_verify";
    allow_non_salesforce_host = F.get_ok_bool d "allow_non_salesforce_host";
  }

  unfoldable pub role_fields : F.FieldData → RoleFields
  role_fields d = record {
    name = F.get_string d "name";
    config = F.get_ok_string d "config";
    grant_type = F.get_ok_string d "grant_type";
    username = F.get_ok_string d "username";
    scopes = F.get_ok_strings d "scopes";
    token_ttl = F.get_ok_seconds d "token_ttl";
    ttl = F.get_ok_seconds d "ttl";
    max_ttl = F.get_ok_seconds d "max_ttl";
    renew_skew = F.get_ok_seconds d "renew_skew";
    jwt_expiry = F.get_ok_seconds d "jwt_expiry";
    audience = F.get_ok_string d "audience";
    use_introspection = F.get_ok_bool d "use_introspection";
    revoke_tokens = F.get_ok_bool d "revoke_tokens";
  }

  abbrev pub Callback : Type 0
  Callback = F.FieldData → Request

  -- `framework.Path`
  pub record FrameworkPath : Type 0 where
    pub pattern : Pattern
    pub fields : Schemas
    pub operations : List (Operation × Callback)
    pub existence_check : Option Callback

  abbrev by_name : (String → Request) → Callback
  by_name request d = request (F.get_string d "name")

  abbrev pub info_path : FrameworkPath
  info_path = record {
    pattern = exact "info";
    fields = [];
    operations = (read_operation, λ _. info_read) ∷ [];
    existence_check = none;
  }

  abbrev pub config_path : FrameworkPath
  config_path = record {
    pattern = named "config/" "name" "";
    fields = config_schema;
    operations =
        (create_operation, λ d. config_write (config_fields d))
        ∷ (update_operation, λ d. config_write (config_fields d))
        ∷ (read_operation, by_name config_read)
        ∷ (delete_operation, by_name config_delete)
        ∷ [];
    existence_check = some (by_name config_exists);
  }

  abbrev pub config_list_path : FrameworkPath
  config_list_path = record {
    pattern = listing "config";
    fields = [];
    operations = (list_operation, λ _. config_list) ∷ [];
    existence_check = none;
  }

  abbrev pub role_path : FrameworkPath
  role_path = record {
    pattern = named "roles/" "name" "";
    fields = role_schema;
    operations =
        (create_operation, λ d. role_write (role_fields d))
        ∷ (update_operation, λ d. role_write (role_fields d))
        ∷ (read_operation, by_name role_read)
        ∷ (delete_operation, by_name role_delete)
        ∷ [];
    existence_check = some (by_name role_exists);
  }

  abbrev pub role_list_path : FrameworkPath
  role_list_path = record {
    pattern = listing "roles";
    fields = [];
    operations = (list_operation, λ _. role_list) ∷ [];
    existence_check = none;
  }

  abbrev pub creds_path : FrameworkPath
  creds_path = record {
    pattern = named "creds/" "name" "";
    fields = name_schema;
    operations = (read_operation, by_name creds_read) ∷ [];
    existence_check = none;
  }

  -- Alias: token/<name> behaves identically to creds/<name>.
  abbrev pub token_path : FrameworkPath
  token_path = record {
    pattern = named "token/" "name" "";
    fields = name_schema;
    operations = (read_operation, by_name creds_read) ∷ [];
    existence_check = none;
  }

  abbrev pub rotate_path : FrameworkPath
  rotate_path = record {
    pattern = named "roles/" "name" "/rotate";
    fields = name_schema;
    operations = (update_operation, by_name rotate) ∷ [];
    existence_check = none;
  }

  abbrev pub path_info : List FrameworkPath
  path_info = info_path ∷ []

  abbrev pub path_config : List FrameworkPath
  path_config = config_path ∷ config_list_path ∷ []

  abbrev pub path_roles : List FrameworkPath
  path_roles = role_path ∷ role_list_path ∷ []

  abbrev pub path_creds : List FrameworkPath
  path_creds = creds_path ∷ token_path ∷ []

  abbrev pub path_rotate_table : List FrameworkPath
  path_rotate_table = rotate_path ∷ []
