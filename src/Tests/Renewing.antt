-- ===== src/Tests/Renewing.antt =====
-- A write of a configuration and then a read of credentials, on the platform in memory.
use vault_plugin_secrets_sal.Role.{of_seconds}
use vault_plugin_secrets_sal.Platform.Memory.{lookup, names_below, without}
use vault_plugin_secrets_sal.Jwt.{
  build_jwt_assertion, load_cached_key, load_key, parse_and_store, store_key, wrap_error,
}
use vault_plugin_secrets_sal.Common.Text.{strip_prefix, trim_slashes}
use vault_plugin_secrets_sal.Client.{
  request_client_credentials_token, http_client_for, token_attempts, as_salesforce_error, back_off,
  do_token_request_once, finish, finish_or, is_retryable_status, parse_token_error, read_response,
  read_result, request_jwt_bearer_token,
}
use vault_plugin_secrets_sal.Common.Int.{wrap_int64, neg, ◌*ℤ◌}
use vault_plugin_secrets_sal.Token.{fresh, compute_expiry}
use vault_plugin_secrets_sal.Storage.{
  get_cached_token, decoded, delete_cached_token, put_cached_token,
}
use vault_plugin_secrets_sal.Creds.{
  fresh_cached, then_unlock, issue_locked, mint_and_cache, mint_token, cached_token_of, fail_closed,
  fresh_or_none, issue_contended, serve_or_fail, unexpired_cached, unexpired_or_none,
}
use vault_plugin_secrets_sal.Action.{◌>>=◌, attempt, call, lift, pure, raise, try_call}
use vault_plugin_secrets_sal.Common.{[], ◌∷◌, ◌≡◌, refl, some}
use vault_plugin_secrets_sal.Common.Int.{◌+ℤ◌}
use vault_plugin_secrets_sal.Errors.{ok}
use vault_plugin_secrets_sal.Config.{effective_token_url}
use vault_plugin_secrets_sal.Token.{CachedToken, unix}
use vault_plugin_secrets_sal.Platform.{received}
use vault_plugin_secrets_sal.Platform.Memory.{memory}
use vault_plugin_secrets_sal.Platform.Memory.Lawful.{memory-IsLawful}
use vault_plugin_secrets_sal.Action.{State}
use vault_plugin_secrets_sal.Client.{is_transient_mint_error, do_token_request}
use vault_plugin_secrets_sal.Creds.{after_mint, issue_token}
use vault_plugin_secrets_sal.Jwt.{claims_of, parse_rsa_private_key}
use vault_plugin_secrets_sal.Errors.{respond}
use vault_plugin_secrets_sal.Config.{Config}
use vault_plugin_secrets_sal.Storage.{get_role, get_config}
use vault_plugin_secrets_sal.Storage.Stored.{stored_role, stored_config}
use vault_plugin_secrets_sal.Creds.{
  IssuedSecret, secret_response, with_role_config, path_creds_read, no_such_role, no_such_config,
}
use vault_plugin_secrets_sal.Creds.Reads.{told}
use vault_plugin_secrets_sal.Tests.Data.{app_memory, at_memory, app}
use vault_plugin_secrets_sal.Config.Handlers.{
  merge_config, or_no_config, path_config_write, write_over, store_config, config_refusal,
  must_re_supply, sensitive_change, audit_config, log_if,
}
use vault_plugin_secrets_sal.Storage.{
  delete_cached_tokens_for_config, delete_each_bound, delete_if_bound,
}
use vault_plugin_secrets_sal.HostCheck.{
  validate_token_host, host_of, check_url, has_any_suffix, is_loopback_host,
}
use vault_plugin_secrets_sal.Common.Text.{has_suffix, strip_suffix}
use vault_plugin_secrets_sal.Errors.{empty}
use vault_plugin_secrets_sal.Common.{Option}
use vault_plugin_secrets_sal.Action.Keeps.{Keeps}
use vault_plugin_secrets_sal.Creds.Afresh.{MintedFor}
use vault_plugin_secrets_sal.Config.Renewal.{path_creds_read-renewed}
use vault_plugin_secrets_sal.Tests.Data.{acme_client_id}

abbrev answering : State memory
answering = at_memory (record app_memory { answers = received 200 "00Dxx!second" ∷ [] })

abbrev rewritten : State memory
rewritten = (path_config_write memory acme_client_id answering).1

acme_updated : (path_config_write memory acme_client_id answering).0 ≡ ok empty
unfolding path_config_write write_over store_config memory ◌>>=◌ get_config decoded config_refusal
    merge_config must_re_supply sensitive_change validate_token_host effective_token_url
    trim_slashes has_suffix strip_suffix audit_config log_if host_of delete_cached_tokens_for_config
    delete_each_bound call lift pure try_call check_url has_any_suffix is_loopback_host lookup
    names_below strip_prefix without delete_cached_token delete_if_bound get_role
acme_updated = refl

app_is_stored : stored_role memory-IsLawful answering "app" ≡ ok (some app)
unfolding memory-IsLawful memory decoded
app_is_stored = refl

abbrev Answered : Type 0
Answered =
    (secret : IssuedSecret) × ((path_creds_read memory "app" rewritten).0 ≡ ok (respond secret))

second_is_granted : Answered
unfolding path_creds_read with_role_config get_role get_config no_such_role no_such_config
    secret_response issue_token memory ◌>>=◌ fresh_cached get_cached_token decoded fresh ◌+ℤ◌
    wrap_int64 neg then_unlock issue_locked after_mint mint_and_cache mint_token
    request_client_credentials_token do_token_request http_client_for token_attempts attempt call
    lift pure raise try_call as_salesforce_error back_off do_token_request_once finish finish_or
    is_retryable_status is_transient_mint_error parse_token_error read_response read_result
    request_jwt_bearer_token ◌*ℤ◌ trim_slashes effective_token_url cached_token_of fail_closed
    fresh_or_none issue_contended serve_or_fail unexpired_cached unexpired_or_none
    build_jwt_assertion claims_of load_cached_key load_key parse_and_store parse_rsa_private_key
    store_key wrap_error lookup names_below strip_prefix without of_seconds delete_cached_token
    put_cached_token compute_expiry unix path_config_write write_over store_config config_refusal
    merge_config must_re_supply sensitive_change validate_token_host has_suffix strip_suffix
    audit_config log_if host_of delete_cached_tokens_for_config delete_each_bound check_url
    has_any_suffix is_loopback_host delete_if_bound
second_is_granted = (_, refl)

lock-Keeps : {P : State memory → Type 0} → Keeps P (call memory (memory.lock "app"))
unfolding memory call
lock-Keeps = record { at = λ s h. h }

path_creds_read-renewed_example :
    (old : Option Config) × (ct : CachedToken) × (stored_config memory-IsLawful answering "acme"
      ≡ ok old)
    × (second_is_granted.0 ≡ told memory-IsLawful "app" answering app ct second_is_granted.0.cached)
    × MintedFor memory (merge_config acme_client_id (or_no_config old)) app ct
path_creds_read-renewed_example =
    path_creds_read-renewed memory-IsLawful "app" (λ cfg role. lock-Keeps) acme_client_id answering
      app second_is_granted.0 acme_updated refl app_is_stored refl second_is_granted.1
