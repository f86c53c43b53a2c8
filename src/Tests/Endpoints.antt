-- ===== src/Tests/Endpoints.antt =====
-- Endpoints, the host check and the redacted view, at concrete configurations.
use vault_plugin_secrets_sal.Common.Text.{has_suffix, strip_suffix}
use vault_plugin_secrets_sal.Config.Handlers.{must_re_supply}
use vault_plugin_secrets_sal.Common.Text.{has_suffix, strip_suffix}
use vault_plugin_secrets_sal.Common.{String, ◌<>◌, ◌≡◌, ◌≢◌, refl, true, false, none, some}
use vault_plugin_secrets_sal.Common.Text.{trim_slashes}
use vault_plugin_secrets_sal.Errors.{ok}
use vault_plugin_secrets_sal.Config.{Config, effective_token_url, revoke_url, redacted_map}
use vault_plugin_secrets_sal.Config.Handlers.{ConfigFields, config_refusal, merge_config}
use vault_plugin_secrets_sal.Config.Endpoints.{
  revoke_url-unchecked, redacted_map-hides, config_refusal-partial,
}
use vault_plugin_secrets_sal.Platform.{Url}
use vault_plugin_secrets_sal.Platform.Memory.{memory}
use vault_plugin_secrets_sal.HostCheck.{validate_token_host}
use vault_plugin_secrets_sal.HostCheck.Allowed.{IsAllowed, validate_token_host_iff}
use vault_plugin_secrets_sal.Tests.Data.{acme, acme_client_id}

abbrev login_token_url : String
login_token_url = "https://login.salesforce.com/services/oauth2/token"

validate_token_host_iff_example :
    (validate_token_host memory login_token_url false ≡ none
      → (u : Url) × (memory.url_parse login_token_url ≡ ok u) × IsAllowed memory false u)
    × ((u : Url)
        → memory.url_parse login_token_url ≡ ok u
        → IsAllowed memory false u
        → validate_token_host memory login_token_url false ≡ none)
validate_token_host_iff_example = validate_token_host_iff memory login_token_url false

login_is_allowed : validate_token_host memory login_token_url false ≡ none
unfolding validate_token_host memory has_suffix strip_suffix
login_is_allowed = refl

acme_token_url :
    effective_token_url acme ≡ "https://login.salesforce.com/services/oauth2" <> "/token"
unfolding effective_token_url trim_slashes
acme_token_url = refl

-- A configuration whose token endpoint is an override that does not end in "/token".
abbrev overridden : Config
overridden = record acme { token_url = "https://acme.my.salesforce.com/oauth" }

overridden_passes : config_refusal memory none acme_client_id overridden ≡ none
unfolding config_refusal must_re_supply validate_token_host memory effective_token_url has_suffix
    strip_suffix
overridden_passes = refl

has_token_url : overridden.token_url ≢ ""
has_token_url p = cc

abbrev attacker_url : String
attacker_url = "http://attacker.example"

has_attacker_url : attacker_url ≢ ""
has_attacker_url p = cc

revoke_url-unchecked_example :
    (config_refusal memory none acme_client_id (record overridden { login_url = attacker_url })
      ≡ none)
    × (revoke_url (record overridden { login_url = attacker_url })
        ≡ trim_slashes attacker_url <> "/services/oauth2/revoke")
unfolding has_suffix strip_suffix
revoke_url-unchecked_example =
    revoke_url-unchecked memory acme_client_id overridden attacker_url has_token_url refl
      has_attacker_url overridden_passes

redacted_map-hides_example :
    redacted_map (record acme { client_secret = "another"; private_key = "" }) ≡ redacted_map acme
redacted_map-hides_example = redacted_map-hides acme "another" "" refl refl

-- An update that supplies a private key, and sends the stored client secret elsewhere.
abbrev redirect : ConfigFields
redirect = record acme_client_id {
  token_url = some "https://gateway.example/services/oauth2/token";
  private_key = some "any";
  allow_non_salesforce_host = some true;
}

has_login_url : (merge_config redirect acme).login_url ≢ ""
unfolding merge_config
has_login_url p = cc

has_client_id : (merge_config redirect acme).client_id ≢ ""
unfolding merge_config
has_client_id p = cc

gateway_passes :
    validate_token_host memory
      (effective_token_url (merge_config redirect acme))
      (merge_config redirect acme).allow_non_salesforce_host
    ≡ none
unfolding merge_config validate_token_host memory effective_token_url
gateway_passes = refl

config_refusal-partial_example :
    (config_refusal memory (some acme) redirect (merge_config redirect acme) ≡ none)
    × ((merge_config redirect acme).client_secret ≡ acme.client_secret)
config_refusal-partial_example =
    config_refusal-partial memory acme redirect "any" refl refl has_login_url has_client_id
      gateway_passes
