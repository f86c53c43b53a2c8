-- ===== src/Tests/Updates.antt =====
-- Updates of a role, on the platform in memory.
use vault_plugin_secrets_sal.Platform.Memory.{lookup, without}
use vault_plugin_secrets_sal.Role.{Role, of_seconds}
use vault_plugin_secrets_sal.Common.{String, arith, [], ◌∷◌, ◌≡◌, refl, false, none, some}
use vault_plugin_secrets_sal.Common.Int.{pos, wrap_int64, ◌*ℤ◌, neg}
use vault_plugin_secrets_sal.Errors.{Error, ok, empty, respond, Reply, error_response}
use vault_plugin_secrets_sal.Platform.Memory.{memory, role_entry, config_entry}
use vault_plugin_secrets_sal.Platform.Memory.Lawful.{memory-IsLawful}
use vault_plugin_secrets_sal.Action.{State, lift, try_call, pure, call, ◌>>=◌}
use vault_plugin_secrets_sal.Storage.{get_config, get_role, delete_cached_token, decoded}
use vault_plugin_secrets_sal.Storage.Stored.{stored_role}
use vault_plugin_secrets_sal.Role.Handlers.{
  RoleFields, write_role_over, identity_refusal, check_and_store_role, validate_role,
  config_refusal_for, store_role, path_role_write, path_role_read, merge_role, role_refusal,
  seconds_or, seconds_or_default, grant_refusal, role_data, whole_seconds,
}
use vault_plugin_secrets_sal.Role.Storing.{is_accepted}
use vault_plugin_secrets_sal.Role.Updates.{
  resupplied, HasWholeTimes, path_role_write-read_back, path_role_write-zero_skew,
}
use vault_plugin_secrets_sal.Tests.Data.{at_memory, app_memory, app, acme}

abbrev running : State memory
running = at_memory app_memory

app-HasWholeTimes : HasWholeTimes app
unfolding of_seconds wrap_int64 ◌*ℤ◌
app-HasWholeTimes = record {
  token_ttl = (pos 900, (ground arith, ground arith), refl);
  ttl = (pos 600, (ground arith, ground arith), refl);
  max_ttl = (pos 0, (ground arith, ground arith), refl);
  renew_skew = (pos 60, (ground arith, ground arith), refl);
  jwt_expiry = (pos 180, (ground arith, ground arith), refl);
}

app_is_stored : stored_role memory-IsLawful running "app" ≡ ok (some app)
unfolding memory ◌>>=◌ get_config decoded call lift pure try_call lookup without delete_cached_token
    get_role path_role_write path_role_read write_role_over identity_refusal merge_role
    check_and_store_role validate_role config_refusal_for store_role role_refusal seconds_or
    seconds_or_default of_seconds wrap_int64 ◌*ℤ◌ memory-IsLawful grant_refusal role_data
    whole_seconds neg
app_is_stored = refl

app_is_read : (path_role_read memory "app" running).0 ≡ ok (respond (role_data app))
unfolding memory ◌>>=◌ get_config decoded call lift pure try_call lookup without delete_cached_token
    get_role path_role_write path_role_read write_role_over identity_refusal merge_role
    check_and_store_role validate_role config_refusal_for store_role role_refusal seconds_or
    seconds_or_default of_seconds wrap_int64 ◌*ℤ◌ memory-IsLawful grant_refusal role_data
    whole_seconds neg
app_is_read = refl

app_is_written : (path_role_write memory (resupplied "app" (role_data app)) running).0 ≡ ok empty
unfolding memory ◌>>=◌ get_config decoded call lift pure try_call lookup without delete_cached_token
    get_role path_role_write path_role_read write_role_over identity_refusal merge_role
    check_and_store_role validate_role config_refusal_for store_role role_refusal seconds_or
    seconds_or_default of_seconds wrap_int64 ◌*ℤ◌ memory-IsLawful grant_refusal role_data
    whole_seconds neg
app_is_written = refl

path_role_write-read_back_example :
    stored_role memory-IsLawful
      (path_role_write memory (resupplied "app" (role_data app)) running).1
      "app"
    ≡ ok (some app)
path_role_write-read_back_example =
    path_role_write-read_back memory-IsLawful "app" running running app (role_data app) empty
      app_is_stored app-HasWholeTimes app_is_read app_is_written refl

abbrev no_skew : Role
no_skew = record app { token_ttl = pos 30_000_000_000; renew_skew = pos 0 }

abbrev nothing : RoleFields
nothing = record {
  name = "app";
  config = none;
  grant_type = none;
  username = none;
  scopes = none;
  token_ttl = none;
  ttl = none;
  max_ttl = none;
  renew_skew = none;
  jwt_expiry = none;
  audience = none;
  use_introspection = none;
  revoke_tokens = none;
}

abbrev brief : State memory
brief = at_memory (record app_memory {
  entries = ("config/acme", config_entry acme) ∷ ("role/app", role_entry no_skew) ∷ [];
})

no_skew_is_stored : stored_role memory-IsLawful brief "app" ≡ ok (some no_skew)
unfolding memory ◌>>=◌ get_config decoded call lift pure try_call lookup without delete_cached_token
    get_role path_role_write path_role_read write_role_over identity_refusal merge_role
    check_and_store_role validate_role config_refusal_for store_role role_refusal seconds_or
    seconds_or_default of_seconds wrap_int64 ◌*ℤ◌ memory-IsLawful grant_refusal role_data
    whole_seconds neg
no_skew_is_stored = refl

-- The role with no skew passes the checks on its fields.
no_skew_passes : role_refusal no_skew ≡ none
unfolding role_refusal
no_skew_passes = refl

nothing_is_refused :
    (e : Error) × ((path_role_write memory nothing brief).0 ≡ ok (error_response e))
unfolding memory ◌>>=◌ get_config decoded call lift pure try_call lookup without delete_cached_token
    get_role path_role_write path_role_read write_role_over identity_refusal merge_role
    check_and_store_role validate_role config_refusal_for store_role role_refusal seconds_or
    seconds_or_default of_seconds wrap_int64 ◌*ℤ◌ memory-IsLawful grant_refusal role_data
    whole_seconds neg
nothing_is_refused = (_, refl)

abbrev refusal : Reply String
refusal = error_response nothing_is_refused.0

path_role_write-zero_skew_example : is_accepted refusal ≡ false
path_role_write-zero_skew_example =
    path_role_write-zero_skew memory-IsLawful nothing brief no_skew 30_000_000_000 no_skew_is_stored
      refl refl (ground arith) (ground arith) refl refl refusal nothing_is_refused.1
