-- ===== src/Tests/Granting.antt =====
-- A read of credentials, on the platform in memory.
use vault_plugin_secrets_sal.Role.{of_seconds}
use vault_plugin_secrets_sal.Platform.Memory.{lookup, names_below, without}
use vault_plugin_secrets_sal.Jwt.{
  build_jwt_assertion, load_cached_key, load_key, parse_and_store, store_key, wrap_error,
}
use vault_plugin_secrets_sal.Common.Text.{strip_prefix, trim_slashes}
use vault_plugin_secrets_sal.Client.{
  request_client_credentials_token, http_client_for, token_attempts, as_salesforce_error, back_off,
  do_token_request_once, finish, finish_or, is_retryable_status, parse_token_error, read_response,
  read_result, request_jwt_bearer_token,
}
use vault_plugin_secrets_sal.Common.Int.{wrap_int64, neg, ◌*ℤ◌}
use vault_plugin_secrets_sal.Token.{fresh, compute_expiry}
use vault_plugin_secrets_sal.Storage.{
  get_cached_token, decoded, delete_cached_token, put_cached_token,
}
use vault_plugin_secrets_sal.Creds.{
  fresh_cached, then_unlock, issue_locked, mint_and_cache, mint_token, cached_token_of, fail_closed,
  fresh_or_none, issue_contended, serve_or_fail, unexpired_cached, unexpired_or_none,
}
use vault_plugin_secrets_sal.Action.{◌>>=◌, attempt, call, lift, pure, raise, try_call}
use vault_plugin_secrets_sal.Common.{[], ◌∷◌, ◌≡◌, refl, false, some}
use vault_plugin_secrets_sal.Common.Int.{pos, ◌+ℤ◌}
use vault_plugin_secrets_sal.Errors.{ok}
use vault_plugin_secrets_sal.Config.{effective_token_url}
use vault_plugin_secrets_sal.Token.{CachedToken, unix}
use vault_plugin_secrets_sal.Platform.{received}
use vault_plugin_secrets_sal.Platform.Memory.{memory}
use vault_plugin_secrets_sal.Platform.Memory.Lawful.{memory-IsLawful}
use vault_plugin_secrets_sal.Action.{State}
use vault_plugin_secrets_sal.Storage.Stored.{stored_token}
use vault_plugin_secrets_sal.Client.{is_transient_mint_error, do_token_request}
use vault_plugin_secrets_sal.Creds.{after_mint, issue_token}
use vault_plugin_secrets_sal.Jwt.{claims_of, parse_rsa_private_key}
use vault_plugin_secrets_sal.Errors.{respond}
use vault_plugin_secrets_sal.Config.{Config}
use vault_plugin_secrets_sal.Role.{Role}
use vault_plugin_secrets_sal.Storage.{get_role, get_config}
use vault_plugin_secrets_sal.Storage.Stored.{stored_role, stored_config}
use vault_plugin_secrets_sal.Creds.{
  IssuedSecret, secret_response, with_role_config, path_creds_read, no_such_role, no_such_config,
}
use vault_plugin_secrets_sal.Creds.Afresh.{MintedFor}
use vault_plugin_secrets_sal.Creds.Reads.{told, path_creds_read-granted}
use vault_plugin_secrets_sal.Tests.Data.{app_memory, at_memory, app}

-- The endpoint is about to give a second token, a minute before the cached one expires.
abbrev answering : State memory
answering = at_memory (record app_memory { answers = received 200 "00Dxx!second" ∷ [] })

abbrev second_token : CachedToken
second_token = record {
  access_token = "00Dxx!second";
  instance_url = "https://acme.my.salesforce.com";
  token_type = "Bearer";
  scope = "api";
  issued_at = pos 882_000_000_000;
  expires_at = pos 1_782_000_000_000;
}

abbrev second_secret : IssuedSecret
unfolding secret_response
second_secret = secret_response memory "app" app (second_token, false)

second_is_granted : (path_creds_read memory "app" answering).0 ≡ ok (respond second_secret)
unfolding path_creds_read with_role_config get_role get_config no_such_role no_such_config
    secret_response second_secret issue_token memory ◌>>=◌ fresh_cached get_cached_token decoded
    fresh ◌+ℤ◌ wrap_int64 neg then_unlock issue_locked after_mint mint_and_cache mint_token
    request_client_credentials_token do_token_request http_client_for token_attempts attempt call
    lift pure raise try_call as_salesforce_error back_off do_token_request_once finish finish_or
    is_retryable_status is_transient_mint_error parse_token_error read_response read_result
    request_jwt_bearer_token ◌*ℤ◌ trim_slashes effective_token_url cached_token_of fail_closed
    fresh_or_none issue_contended serve_or_fail unexpired_cached unexpired_or_none
    build_jwt_assertion claims_of load_cached_key load_key parse_and_store parse_rsa_private_key
    store_key wrap_error lookup names_below strip_prefix without of_seconds delete_cached_token
    put_cached_token compute_expiry unix
second_is_granted = refl

path_creds_read-granted_example :
    (role : Role) × (cfg : Config) × (ct : CachedToken) × (stored_role memory-IsLawful answering
        "app"
      ≡ ok (some role))
    × (stored_config memory-IsLawful answering role.config ≡ ok (some cfg))
    × (second_secret ≡ told memory-IsLawful "app" answering role ct second_secret.cached)
    × (stored_token memory-IsLawful (path_creds_read memory "app" answering).1 "app" ≡ ok (some ct))
    × (second_secret.cached ≡ false → MintedFor memory cfg role ct)
path_creds_read-granted_example =
    path_creds_read-granted memory-IsLawful "app" answering second_secret second_is_granted
