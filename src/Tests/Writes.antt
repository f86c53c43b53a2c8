-- ===== src/Tests/Writes.antt =====
-- Writes of a configuration and of a role, on the platform in memory.
use vault_plugin_secrets_sal.Storage.{delete_if_bound}
use vault_plugin_secrets_sal.Platform.Memory.{lookup, names_below, without}
use vault_plugin_secrets_sal.HostCheck.{host_of, check_url, has_any_suffix, is_loopback_host}
use vault_plugin_secrets_sal.Role.Handlers.{write_role_over, identity_refusal}
use vault_plugin_secrets_sal.Storage.{get_role}
use vault_plugin_secrets_sal.Role.Handlers.{
  write_role_over, identity_refusal, check_and_store_role, validate_role, config_refusal_for,
  store_role,
}
use vault_plugin_secrets_sal.Storage.{get_role, delete_cached_token}
use vault_plugin_secrets_sal.Config.Handlers.{must_re_supply, sensitive_change}
use vault_plugin_secrets_sal.Storage.{delete_each_bound}
use vault_plugin_secrets_sal.Common.Text.{strip_prefix, trim_slashes, has_suffix, strip_suffix}
use vault_plugin_secrets_sal.Config.{effective_token_url}
use vault_plugin_secrets_sal.HostCheck.{validate_token_host}
use vault_plugin_secrets_sal.Config.Handlers.{must_re_supply, audit_config, log_if}
use vault_plugin_secrets_sal.Common.{◌<>◌, ◌≡◌, refl, true, none, some, Option}
use vault_plugin_secrets_sal.Errors.{ok, empty, Error, error_response}
use vault_plugin_secrets_sal.Config.{Config}
use vault_plugin_secrets_sal.Role.{Role}
use vault_plugin_secrets_sal.Platform.Memory.{memory}
use vault_plugin_secrets_sal.Platform.Memory.Lawful.{memory-IsLawful}
use vault_plugin_secrets_sal.Action.{State, call, lift, try_call, pure, ◌>>=◌}
use vault_plugin_secrets_sal.Storage.{get_config, decoded, delete_cached_tokens_for_config}
use vault_plugin_secrets_sal.Storage.Stored.{stored_config, stored_role, entry, SameEntries}
use vault_plugin_secrets_sal.Config.Handlers.{
  path_config_write, write_over, store_config, merge_config, config_refusal, or_no_config,
}
use vault_plugin_secrets_sal.Config.Writes.{
  path_config_write-no_repoint, path_config_write-rejected,
}
use vault_plugin_secrets_sal.Role.Handlers.{path_role_write, merge_role, or_no_role, role_refusal}
use vault_plugin_secrets_sal.Role.Storing.{CanMint}
use vault_plugin_secrets_sal.Role.Writes.{
  path_role_write-identity, path_role_write-CanMint, path_role_write-rejected,
}
use vault_plugin_secrets_sal.Config.Merged.{ConfigUpdated, path_config_write-ConfigUpdated}
use vault_plugin_secrets_sal.Role.Merged.{RoleUpdated, path_role_write-RoleUpdated}
use vault_plugin_secrets_sal.Tests.Data.{
  no_memory, at_memory, app_memory, acme, app, acme_client_id, acme_elsewhere, app_as_user,
  acme_fields, app_fields,
}

abbrev start : State memory
start = at_memory no_memory

abbrev running : State memory
running = at_memory app_memory

acme_created : (path_config_write memory acme_fields start).0 ≡ ok empty
unfolding path_config_write write_over store_config memory ◌>>=◌ get_config decoded config_refusal
    merge_config must_re_supply validate_token_host effective_token_url trim_slashes has_suffix
    strip_suffix audit_config log_if delete_cached_tokens_for_config delete_each_bound
acme_created = refl

path_config_write-ConfigUpdated_example :
    (old : Option Config) × (new : Config) × (stored_config memory-IsLawful start "acme" ≡ ok old)
    × (stored_config memory-IsLawful (path_config_write memory acme_fields start).1 "acme"
        ≡ ok (some new))
    × ConfigUpdated acme_fields (or_no_config old) new
    × (config_refusal memory old acme_fields new ≡ none)
path_config_write-ConfigUpdated_example =
    path_config_write-ConfigUpdated memory-IsLawful acme_fields start acme_created

acme_updated : (path_config_write memory acme_client_id running).0 ≡ ok empty
unfolding path_config_write write_over store_config memory ◌>>=◌ get_config decoded config_refusal
    merge_config must_re_supply sensitive_change validate_token_host effective_token_url
    trim_slashes has_suffix strip_suffix audit_config log_if host_of delete_cached_tokens_for_config
    delete_each_bound call lift pure try_call check_url has_any_suffix is_loopback_host lookup
    names_below strip_prefix without delete_cached_token delete_if_bound get_role
acme_updated = refl

app_is_stored : stored_role memory-IsLawful running "app" ≡ ok (some app)
unfolding memory-IsLawful memory decoded
app_is_stored = refl

acme_is_stored : stored_config memory-IsLawful running "acme" ≡ ok (some acme)
unfolding memory-IsLawful memory decoded
acme_is_stored = refl

path_config_write-no_repoint_example :
    (new : Config) × (stored_config memory-IsLawful
        (path_config_write memory acme_client_id running).1
        "acme"
      ≡ ok (some new))
    × (new.token_url ≡ acme.token_url)
    × (new.login_url ≡ acme.login_url)
    × (new.client_secret ≡ acme.client_secret)
    × (new.private_key ≡ acme.private_key)
    × (new.tls_skip_verify ≡ true → acme.tls_skip_verify ≡ true)
    × (new.allow_non_salesforce_host ≡ true → acme.allow_non_salesforce_host ≡ true)
path_config_write-no_repoint_example =
    path_config_write-no_repoint memory-IsLawful acme_client_id running acme_updated acme
      acme_is_stored refl refl

repoint_refused :
    (e : Error) × ((path_config_write memory acme_elsewhere running).0 ≡ ok (error_response e))
unfolding path_config_write write_over ◌>>=◌ get_config memory decoded config_refusal merge_config
    must_re_supply sensitive_change
repoint_refused = (_, refl)

path_config_write-rejected_example :
    SameEntries memory-IsLawful running (path_config_write memory acme_elsewhere running).1
path_config_write-rejected_example =
    path_config_write-rejected memory-IsLawful acme_elsewhere running repoint_refused.0
      repoint_refused.1

app_updated : (path_role_write memory app_fields running).0 ≡ ok empty
unfolding path_role_write ◌>>=◌ get_role memory decoded write_role_over identity_refusal merge_role
    check_and_store_role validate_role role_refusal config_refusal_for get_config store_role
    delete_cached_token
app_updated = refl

path_role_write-RoleUpdated_example :
    (old : Option Role) × (new : Role) × (stored_role memory-IsLawful running "app" ≡ ok old)
    × (stored_role memory-IsLawful (path_role_write memory app_fields running).1 "app"
        ≡ ok (some new))
    × RoleUpdated app_fields (or_no_role old) new
    × (role_refusal new ≡ none)
    × (entry memory-IsLawful (path_role_write memory app_fields running).1 ("cache/" <> "app")
        ≡ none)
path_role_write-RoleUpdated_example =
    path_role_write-RoleUpdated memory-IsLawful app_fields running empty app_updated refl

path_role_write-identity_example :
    (new : Role) × (stored_role memory-IsLawful (path_role_write memory app_fields running).1 "app"
      ≡ ok (some new))
    × (new.username ≡ app.username)
    × (new.config ≡ app.config)
path_role_write-identity_example =
    path_role_write-identity memory-IsLawful app_fields running empty app_updated refl app
      app_is_stored

path_role_write-CanMint_example :
    (new : Role) × (cfg : Config) × (stored_role memory-IsLawful
        (path_role_write memory app_fields running).1
        "app"
      ≡ ok (some new))
    × (stored_config memory-IsLawful running new.config ≡ ok (some cfg))
    × CanMint new cfg
path_role_write-CanMint_example =
    path_role_write-CanMint memory-IsLawful app_fields running empty app_updated refl

user_refused :
    (e : Error) × ((path_role_write memory app_as_user running).0 ≡ ok (error_response e))
unfolding path_role_write ◌>>=◌ get_role memory decoded write_role_over identity_refusal merge_role
user_refused = (_, refl)

path_role_write-rejected_example :
    SameEntries memory-IsLawful running (path_role_write memory app_as_user running).1
path_role_write-rejected_example =
    path_role_write-rejected memory-IsLawful app_as_user running user_refused.0 user_refused.1
