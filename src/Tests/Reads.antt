-- ===== src/Tests/Reads.antt =====
-- Reads, deletes, rotations and the end of a lease, on the platform in memory.
use vault_plugin_secrets_sal.Token.{compute_expiry, unix}
use vault_plugin_secrets_sal.Platform.Memory.{lookup, names_below, without}
use vault_plugin_secrets_sal.Jwt.{
  build_jwt_assertion, claims_of, load_cached_key, load_key, parse_and_store, parse_rsa_private_key,
  store_key, wrap_error,
}
use vault_plugin_secrets_sal.Config.{effective_token_url, revoke_url}
use vault_plugin_secrets_sal.Common.Text.{
  strip_prefix, has_suffix, strip_suffix, trim_slashes, trim_suffix,
}
use vault_plugin_secrets_sal.Common.Int.{wrap_int64, ◌*ℤ◌, ◌+ℤ◌}
use vault_plugin_secrets_sal.Client.{
  request_client_credentials_token, do_token_request, http_client_for, token_attempts,
  do_token_request_once, back_off, finish, finish_or, is_retryable_status, parse_token_error,
  read_response, read_result, request_jwt_bearer_token, revoke_result, revoke_token,
}
use vault_plugin_secrets_sal.Lease.{
  rotate_locked, revoke_cached_token_at_salesforce, log_revocation, revoke_cached,
  revoke_with_config,
}
use vault_plugin_secrets_sal.Storage.{
  get_role, decoded, get_config, delete_cached_token, get_cached_token, put_cached_token,
}
use vault_plugin_secrets_sal.Action.{◌>>=◌, attempt, call, lift, pure, raise, try_call}
use vault_plugin_secrets_sal.Creds.{
  with_role_config, then_unlock, mint_and_cache, mint_token, cached_token_of, no_such_config,
  no_such_role,
}
use vault_plugin_secrets_sal.Storage.{get_role, decoded, delete_cached_token}
use vault_plugin_secrets_sal.Action.{◌>>=◌}
use vault_plugin_secrets_sal.Lease.{revoke_lease_of, revoke_cached_token_at_salesforce}
use vault_plugin_secrets_sal.Storage.{
  delete_cached_tokens_for_config, delete_each_bound, get_role, decoded, delete_if_bound,
  delete_cached_token,
}
use vault_plugin_secrets_sal.Action.{◌>>=◌}
use vault_plugin_secrets_sal.Storage.{get_config, decoded}
use vault_plugin_secrets_sal.Action.{◌>>=◌}
use vault_plugin_secrets_sal.Storage.{delete_cached_token}
use vault_plugin_secrets_sal.Action.{◌>>=◌}
use vault_plugin_secrets_sal.Storage.{get_role, decoded}
use vault_plugin_secrets_sal.Action.{◌>>=◌}
use vault_plugin_secrets_sal.Common.Int.{◌*ℤ◌}
use vault_plugin_secrets_sal.Common.{String, ◌<>◌, [], ◌∷◌, ◌≡◌, ◌≢◌, refl, true, none, some}
use vault_plugin_secrets_sal.Common.Int.{pos}
use vault_plugin_secrets_sal.Errors.{ok, empty, respond}
use vault_plugin_secrets_sal.Config.{redacted_map}
use vault_plugin_secrets_sal.Role.{Role, of_seconds}
use vault_plugin_secrets_sal.Platform.{received}
use vault_plugin_secrets_sal.Platform.Laws.{is_flat}
use vault_plugin_secrets_sal.Platform.Memory.{memory}
use vault_plugin_secrets_sal.Platform.Memory.Lawful.{memory-IsLawful}
use vault_plugin_secrets_sal.Action.{State}
use vault_plugin_secrets_sal.Storage.Stored.{entry, stored_role}
use vault_plugin_secrets_sal.Config.Handlers.{path_config_read, path_config_delete}
use vault_plugin_secrets_sal.Config.Reads.{path_config_delete-gone}
use vault_plugin_secrets_sal.Role.Handlers.{role_data, path_role_read, path_role_delete}
use vault_plugin_secrets_sal.Lease.{
  role_named, LeaseSecret, with_role_times, secret_access_token_renew, Rotation, path_rotate,
  secret_access_token_revoke,
}
use vault_plugin_secrets_sal.Lease.Outcomes.{Renewed, secret_access_token_renew-Renewed}
use vault_plugin_secrets_sal.Tests.Data.{app_memory, at_memory, acme, app}

abbrev running : State memory
running = at_memory app_memory

abbrev answering : State memory
answering = at_memory (record app_memory { answers = received 200 "00Dxx!second" ∷ [] })

app_read : (path_role_read memory "app" running).0 ≡ ok (respond (role_data app))
unfolding path_role_read ◌>>=◌ get_role memory decoded
app_read = refl

app_deleted : (path_role_delete memory "app" running).0 ≡ ok empty
unfolding path_role_delete ◌>>=◌ delete_cached_token memory
app_deleted = refl

acme_read : (path_config_read memory "acme" running).0 ≡ ok (respond (redacted_map acme))
unfolding path_config_read ◌>>=◌ get_config memory decoded
acme_read = refl

acme_deleted : (path_config_delete memory "acme" running).0 ≡ ok empty
unfolding path_config_delete ◌>>=◌ delete_cached_tokens_for_config memory delete_each_bound get_role
    decoded delete_if_bound delete_cached_token
acme_deleted = refl

path_config_delete-gone_example :
    (entry memory-IsLawful (path_config_delete memory "acme" running).1 ("config/" <> "acme")
      ≡ none)
    × ((role_name : String) (r : Role)
        → is_flat role_name ≡ true
        → stored_role memory-IsLawful running role_name ≡ ok (some r)
        → r.config ≡ "acme"
        → entry memory-IsLawful (path_config_delete memory "acme" running).1 ("cache/" <> role_name)
          ≡ none)
path_config_delete-gone_example =
    path_config_delete-gone memory-IsLawful "acme" running empty acme_deleted

abbrev rotation : Rotation
rotation = record { rotated = true; role = "app"; expires_at = pos 1_780_000_000_000 }

app_rotated : (path_rotate memory "app" answering).0 ≡ ok (respond rotation)
unfolding path_rotate with_role_config ◌>>=◌ get_role memory decoded get_config then_unlock
    rotate_locked revoke_cached_token_at_salesforce delete_cached_token mint_and_cache mint_token
    request_client_credentials_token do_token_request http_client_for token_attempts
    do_token_request_once attempt call lift pure raise try_call back_off finish finish_or
    is_retryable_status parse_token_error read_response read_result request_jwt_bearer_token
    revoke_result revoke_token wrap_int64 ◌*ℤ◌ ◌+ℤ◌ has_suffix strip_suffix trim_slashes trim_suffix
    effective_token_url revoke_url cached_token_of no_such_config no_such_role build_jwt_assertion
    claims_of load_cached_key load_key parse_and_store parse_rsa_private_key store_key wrap_error
    log_revocation revoke_cached revoke_with_config lookup names_below strip_prefix without
    of_seconds get_cached_token put_cached_token compute_expiry unix
app_rotated = refl

lease_ended : (secret_access_token_revoke memory (role_named "app") running).0 ≡ ok empty
unfolding secret_access_token_revoke revoke_lease_of ◌>>=◌ get_role memory decoded
    revoke_cached_token_at_salesforce delete_cached_token
lease_ended = refl

has_name : ◌≢◌ {A = String} "app" ""
has_name p = cc

abbrev lease : LeaseSecret
lease = record { internal_role = role_named "app"; ttl = pos 1; max_ttl = pos 2 }

lease_renewed :
    (secret_access_token_renew memory lease running).0
    ≡ ok (respond (with_role_times memory lease (some app)))
unfolding secret_access_token_renew ◌>>=◌ get_role memory decoded
lease_renewed = refl

secret_access_token_renew-Renewed_example :
    Renewed memory-IsLawful "app" lease running (respond (with_role_times memory lease (some app)))
secret_access_token_renew-Renewed_example =
    secret_access_token_renew-Renewed memory-IsLawful "app" lease running
      (respond (with_role_times memory lease (some app))) refl lease_renewed
