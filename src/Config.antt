-- ===== src/Config.antt =====
-- path_config.go: the connection configuration, its effective endpoints and its redacted view.
pub mod Handlers
pub mod Frames
pub mod Storing
pub mod Writes
pub mod Merged
pub mod Renewal
pub mod Reads
pub mod Endpoints
use vault_plugin_secrets_sal.Common.{String, ◌<>◌, Bool, not, ◌==◌, if◌then◌else◌}
use vault_plugin_secrets_sal.Common.Text.{has_suffix, trim_suffix, trim_slashes}

pub record Config : Type 0 where
  pub login_url : String
  pub token_url : String
  pub client_id : String
  pub client_secret : String
  pub private_key : String
  pub ca_cert : String
  pub tls_skip_verify : Bool
  pub allow_non_salesforce_host : Bool

abbrev pub config_storage_prefix : String
config_storage_prefix = "config/"

abbrev pub redacted_value : String
redacted_value = "<redacted>"

-- `&salesforceConfig{}`
abbrev pub no_config : Config
no_config = record {
  login_url = "";
  token_url = "";
  client_id = "";
  client_secret = "";
  private_key = "";
  ca_cert = "";
  tls_skip_verify = Bool.false;
  allow_non_salesforce_host = Bool.false;
}

unfoldable pub effective_token_url : Config → String
effective_token_url c =
    if not (c.token_url == "")
    then c.token_url
    else trim_slashes c.login_url <> "/services/oauth2/token"

unfoldable pub revoke_url : Config → String
unfolding effective_token_url
revoke_url c =
    let t = effective_token_url c in
    if has_suffix t "/token"
    then trim_suffix t "/token" <> "/revoke"
    else trim_slashes c.login_url <> "/services/oauth2/revoke"

-- The map that `redactedMap` builds.
pub record RedactedMap : Type 0 where
  pub login_url : String
  pub token_url : String
  pub client_id : String
  pub ca_cert : String
  pub tls_skip_verify : Bool
  pub allow_non_salesforce_host : Bool
  pub client_secret : String
  pub private_key : String

unfoldable pub redacted_map : Config → RedactedMap
redacted_map c = record {
  login_url = c.login_url;
  token_url = effective_token_url c;
  client_id = c.client_id;
  ca_cert = c.ca_cert;
  tls_skip_verify = c.tls_skip_verify;
  allow_non_salesforce_host = c.allow_non_salesforce_host;
  client_secret = if not (c.client_secret == "") then redacted_value else "";
  private_key = if not (c.private_key == "") then redacted_value else "";
}
