-- ===== src/Role.antt =====
-- path_roles.go: the role record and its grant flows.
pub mod Handlers
pub mod Frames
pub mod Storing
pub mod Writes
pub mod Merged
pub mod Reads
pub mod Updates
use vault_plugin_secrets_sal.Common.{String, List, [], Bool}
use vault_plugin_secrets_sal.Common.Int.{ℤ, pos, wrap_int64, ◌*ℤ◌}

-- `time.Duration`: nanoseconds in an `int64`.
abbrev pub Duration : Type 0
Duration = ℤ

-- time.Second
abbrev pub second : Duration
second = pos 1_000_000_000

-- `time.Duration(n) * time.Second`
unfoldable pub of_seconds : ℤ → Duration
unfolding wrap_int64 ◌*ℤ◌
of_seconds n = wrap_int64 (n *ℤ second)

pub record Role : Type 0 where
  pub config : String
  pub grant_type : String
  pub username : String
  pub scopes : List String
  pub token_ttl : Duration
  pub ttl : Duration
  pub max_ttl : Duration
  pub renew_skew : Duration
  pub jwt_expiry : Duration
  pub audience : String
  pub use_introspection : Bool
  pub revoke_tokens : Bool

abbrev pub roles_storage_prefix : String
roles_storage_prefix = "role/"

abbrev pub grant_jwt_bearer : String
grant_jwt_bearer = "jwt_bearer"

abbrev pub grant_client_credential : String
grant_client_credential = "client_credentials"

-- `&salesforceRole{}`
abbrev pub no_role : Role
no_role = record {
  config = "";
  grant_type = "";
  username = "";
  scopes = [];
  token_ttl = pos 0;
  ttl = pos 0;
  max_ttl = pos 0;
  renew_skew = pos 0;
  jwt_expiry = pos 0;
  audience = "";
  use_introspection = Bool.false;
  revoke_tokens = Bool.false;
}
