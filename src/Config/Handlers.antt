-- ===== src/Config/Handlers.antt =====
-- path_config.go: the handlers of config/<name>.
use vault_plugin_secrets_sal.Common.{
  String, ◌<>◌, Bool, true, false, not, ◌&&◌, ◌||◌, Option, none, some, List, [], ◌==◌, on_nil,
  if◌then◌else◌,
}
use vault_plugin_secrets_sal.Errors.{Error, errorf, Reply, empty, error_response, respond}
use vault_plugin_secrets_sal.Config.{
  Config, config_storage_prefix, no_config, effective_token_url, RedactedMap, redacted_map,
}
use vault_plugin_secrets_sal.Platform.{
  Platform, LogLine, host_changed, enables_tls_skip_verify, allows_non_salesforce_host,
}
use vault_plugin_secrets_sal.Action.{Action, pure, lift, call, try_call, ◌>>=◌, ◌>>◌}
use vault_plugin_secrets_sal.HostCheck.{validate_token_host, host_of}
use vault_plugin_secrets_sal.Storage.{get_config, delete_cached_tokens_for_config}

-- The request's fields. A field that `GetOk` does not find is `none`.
pub record ConfigFields : Type 0 where
  pub name : String
  pub login_url : Option String
  pub token_url : Option String
  pub client_id : Option String
  pub client_secret : Option String
  pub private_key : Option String
  pub ca_cert : Option String
  pub tls_skip_verify : Option Bool
  pub allow_non_salesforce_host : Option Bool

-- `if v, ok := data.GetOk(…); ok { field = v }`
abbrev pub supplied_or {ℓ} : {A : Type ℓ} → Option A → A → A
supplied_or none old = old
supplied_or (some v) old = v

abbrev pub is_supplied {ℓ} : {A : Type ℓ} → Option A → Bool
is_supplied none = false
is_supplied (some v) = true

-- The stored configuration, or the zero one.
abbrev pub or_no_config : Option Config → Config
or_no_config none = no_config
or_no_config (some c) = c

unfoldable pub merge_config : ConfigFields → Config → Config
merge_config d c = record {
  login_url = supplied_or d.login_url c.login_url;
  token_url = supplied_or d.token_url c.token_url;
  client_id = supplied_or d.client_id c.client_id;
  client_secret = supplied_or d.client_secret c.client_secret;
  private_key = supplied_or d.private_key c.private_key;
  ca_cert = supplied_or d.ca_cert c.ca_cert;
  tls_skip_verify = supplied_or d.tls_skip_verify c.tls_skip_verify;
  allow_non_salesforce_host = supplied_or d.allow_non_salesforce_host c.allow_non_salesforce_host;
}

unfoldable pub sensitive_change : Config → Config → Bool
sensitive_change old cfg =
    not (cfg.token_url == old.token_url)
    || not (cfg.login_url == old.login_url)
    || (cfg.allow_non_salesforce_host && not old.allow_non_salesforce_host)
    || (cfg.tls_skip_verify && not old.tls_skip_verify)

abbrev pub secret_re_supplied : ConfigFields → Bool
secret_re_supplied d = is_supplied d.client_secret || is_supplied d.private_key

abbrev pub holds_secret : Config → Bool
holds_secret c = not (c.client_secret == "") || not (c.private_key == "")

abbrev pub re_supply_message : String
re_supply_message =
    "this update changes the token endpoint (token_url/login_url) or relaxes a transport guard (allow_non_salesforce_host/tls_skip_verify); re-supply client_secret and/or private_key in the same request to confirm the stored secret may be sent to the new destination"

-- `existing && (old.ClientSecret != "" || old.PrivateKey != "")` and the tests inside
unfoldable pub must_re_supply : Option Config → ConfigFields → Config → Bool
must_re_supply none d cfg = false
must_re_supply (some old) d cfg =
    holds_secret old && sensitive_change old cfg && not (secret_re_supplied d)

module _ (V : Platform) where
  unfoldable pub log_if : Bool → LogLine → Action V (Unit {0})
  log_if b line = if b then call V (V.log line) else pure tt

  -- The checks of `pathConfigWrite` after the merge, in their order.
  unfoldable pub config_refusal : Option Config → ConfigFields → Config → Option Error
  config_refusal stored d cfg =
      if cfg.login_url == ""
      then some (errorf "login_url is required" [])
      else if cfg.client_id == ""
      then some (errorf "client_id is required" [])
      else if must_re_supply stored d cfg
      then some (errorf re_supply_message [])
      else validate_token_host V (effective_token_url cfg) cfg.allow_non_salesforce_host

  -- The audit lines for security-relevant transitions.
  unfoldable pub audit_config : String → Option Config → Config → Action V (Unit {0})
  audit_config name stored cfg = do
    let old = or_no_config stored
    let old_host = host_of V (effective_token_url old)
    let new_host = host_of V (effective_token_url cfg)
    log_if (is_supplied stored && not (old_host == new_host)) (host_changed name old_host new_host)
    log_if (cfg.tls_skip_verify && (not (is_supplied stored) || not old.tls_skip_verify))
        (enables_tls_skip_verify name)
    log_if
        (cfg.allow_non_salesforce_host
          && (not (is_supplied stored) || not old.allow_non_salesforce_host))
        (allows_non_salesforce_host name)

  -- What an accepted write does.
  unfoldable pub store_config : String → Option Config → Config → Action V (Reply (Unit {0}))
  store_config name stored cfg = do
    audit_config name stored cfg
    entry ← lift (V.config_json.encode cfg)
    try_call V (V.storage_put (config_storage_prefix <> name) entry)
    delete_cached_tokens_for_config V name
    pure empty

  unfoldable pub write_over : ConfigFields → Option Config → Action V (Reply (Unit {0}))
  write_over d stored =
      let cfg = merge_config d (or_no_config stored) in
      on_nil (config_refusal stored d cfg) (store_config d.name stored cfg)
        (λ e. pure (error_response e))

  unfoldable pub path_config_write : ConfigFields → Action V (Reply (Unit {0}))
  path_config_write d =
      if d.name == ""
      then pure (error_response (errorf "missing configuration name" []))
      else do stored ← get_config V d.name; write_over d stored

  unfoldable pub path_config_read : String → Action V (Reply RedactedMap)
  path_config_read name = do
    cfg ← get_config V name
    on_nil cfg (pure empty) (λ c. pure (respond (redacted_map c)))

  unfoldable pub path_config_delete : String → Action V (Reply (Unit {0}))
  path_config_delete name = do
    delete_cached_tokens_for_config V name
    try_call V (V.storage_delete (config_storage_prefix <> name))
    pure empty

  unfoldable pub path_config_list : Action V (Reply (List String))
  path_config_list = do
    names ← try_call V (V.storage_list config_storage_prefix)
    pure (respond names)

  unfoldable pub path_config_existence_check : String → Action V Bool
  path_config_existence_check name = do cfg ← get_config V name; pure (is_supplied cfg)
