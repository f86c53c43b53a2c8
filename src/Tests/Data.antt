-- ===== src/Tests/Data.antt =====
-- The data of the tests.
use vault_plugin_secrets_sal.Common.{false, none, some, [], ◌∷◌}
use vault_plugin_secrets_sal.Token.{CachedToken}
use vault_plugin_secrets_sal.Common.Int.{pos}
use vault_plugin_secrets_sal.Config.{Config}
use vault_plugin_secrets_sal.Role.{Role}
use vault_plugin_secrets_sal.Action.{State}
use vault_plugin_secrets_sal.Config.Handlers.{ConfigFields}
use vault_plugin_secrets_sal.Role.Handlers.{RoleFields}
use vault_plugin_secrets_sal.Platform.Memory.{Memory, memory, config_entry, role_entry, token_entry}

abbrev pub no_memory : Memory
no_memory = record { entries = []; clock = 0; answers = []; sent = []; lines = []; waits = [] }

-- A state of the engine on a memory, its key cache empty.
abbrev pub at_memory : Memory → State memory
unfolding memory
at_memory m = record { world = m; rsa_key_cache = [] }

abbrev pub acme : Config
acme = record {
  login_url = "https://login.salesforce.com";
  token_url = "";
  client_id = "3MVG9";
  client_secret = "s3cret";
  private_key = "";
  ca_cert = "";
  tls_skip_verify = false;
  allow_non_salesforce_host = false;
}

-- The request that creates `acme`.
abbrev pub acme_fields : ConfigFields
acme_fields = record {
  name = "acme";
  login_url = some "https://login.salesforce.com";
  token_url = none;
  client_id = some "3MVG9";
  client_secret = some "s3cret";
  private_key = none;
  ca_cert = none;
  tls_skip_verify = none;
  allow_non_salesforce_host = none;
}

abbrev pub app_fields : RoleFields
app_fields = record {
  name = "app";
  config = some "acme";
  grant_type = some "client_credentials";
  username = none;
  scopes = none;
  token_ttl = none;
  ttl = some (pos 600);
  max_ttl = none;
  renew_skew = none;
  jwt_expiry = none;
  audience = none;
  use_introspection = none;
  revoke_tokens = none;
}

abbrev pub app : Role
app = record {
  config = "acme";
  grant_type = "client_credentials";
  username = "";
  scopes = [];
  token_ttl = pos 900_000_000_000;
  ttl = pos 600_000_000_000;
  max_ttl = pos 0;
  renew_skew = pos 60_000_000_000;
  jwt_expiry = pos 180_000_000_000;
  audience = "";
  use_introspection = false;
  revoke_tokens = false;
}

abbrev pub app_token : CachedToken
app_token = record {
  access_token = "00Dxx!first";
  instance_url = "https://acme.my.salesforce.com";
  token_type = "Bearer";
  scope = "api";
  issued_at = pos 0;
  expires_at = pos 900_000_000_000;
}

-- The storage with `acme`, `app` and its cached token, a little before the token expires.
abbrev pub app_memory : Memory
app_memory = record {
  entries =
      ("config/acme", config_entry acme)
      ∷ ("role/app", role_entry app)
      ∷ ("cache/app", token_entry app_token)
      ∷ [];
  clock = 880;
  answers = [];
  sent = [];
  lines = [];
  waits = [];
}

-- An update of `acme` that supplies no secret.
abbrev pub acme_client_id : ConfigFields
acme_client_id = record {
  name = "acme";
  login_url = none;
  token_url = none;
  client_id = some "3MVG10";
  client_secret = none;
  private_key = none;
  ca_cert = none;
  tls_skip_verify = none;
  allow_non_salesforce_host = none;
}

-- An update of `acme` that would send its stored secret to another host.
abbrev pub acme_elsewhere : ConfigFields
acme_elsewhere = record acme_client_id { token_url = some "https://acme.my.salesforce.com/oauth" }

-- An update of `app` that would act as a user.
abbrev pub app_as_user : RoleFields
app_as_user = record app_fields { username = some "admin@acme.example" }
