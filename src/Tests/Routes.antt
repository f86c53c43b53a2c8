-- ===== src/Tests/Routes.antt =====
-- Requests on paths, through the tables, with the framework and the platform of the tests.
use vault_plugin_secrets_sal.Backend.Tables.{role_fields}
use vault_plugin_secrets_sal.Common.Text.{strip_prefix, strip_suffix}
use vault_plugin_secrets_sal.Backend.{served_by, handled_by}
use vault_plugin_secrets_sal.Backend.Tables.{config_fields}
use vault_plugin_secrets_sal.Common.Text.{strip_prefix, strip_suffix}
use vault_plugin_secrets_sal.Backend.{served_by, handled_by}
use vault_plugin_secrets_sal.Backend.Segments.{segments}
use vault_plugin_secrets_sal.HostCheck.{
  host_of, check_url, has_any_suffix, is_loopback_host, validate_token_host,
}
use vault_plugin_secrets_sal.Platform.Memory.{lookup, names_below, without}
use vault_plugin_secrets_sal.Role.Handlers.{
  write_role_over, identity_refusal, check_and_store_role, validate_role, config_refusal_for,
  store_role, path_role_write, merge_role, role_refusal, seconds_or, seconds_or_default,
  grant_refusal,
}
use vault_plugin_secrets_sal.Role.{of_seconds}
use vault_plugin_secrets_sal.Common.Int.{wrap_int64, ◌*ℤ◌}
use vault_plugin_secrets_sal.Storage.{
  get_config, get_role, delete_cached_token, delete_if_bound, delete_each_bound,
  delete_cached_tokens_for_config,
}
use vault_plugin_secrets_sal.Config.Handlers.{
  must_re_supply, sensitive_change, audit_config, log_if, write_over, store_config, merge_config,
  config_refusal,
}
use vault_plugin_secrets_sal.Common.Text.{trim_slashes, has_suffix}
use vault_plugin_secrets_sal.Config.{effective_token_url}
use vault_plugin_secrets_sal.Action.{lift, try_call, pure, ◌>>=◌}
use vault_plugin_secrets_sal.Engine.{serve}
use vault_plugin_secrets_sal.Common.{
  String, ◌<>◌, ◌≡◌, ◌↔◌, refl, inl, inr, none, some, List, [], ◌∷◌,
}
use vault_plugin_secrets_sal.Common.Int.{pos}
use vault_plugin_secrets_sal.Errors.{ok, empty}
use vault_plugin_secrets_sal.Platform.Memory.{memory}
use vault_plugin_secrets_sal.Platform.Memory.Lawful.{memory-IsLawful}
use vault_plugin_secrets_sal.Action.{State, call}
use vault_plugin_secrets_sal.Action.Keeps.{Keeps}
use vault_plugin_secrets_sal.Storage.{decoded}
use vault_plugin_secrets_sal.Storage.Stored.{entry, stored_role}
use vault_plugin_secrets_sal.Config.Handlers.{path_config_write}
use vault_plugin_secrets_sal.Framework.{create_operation, read_operation, update_operation}
use vault_plugin_secrets_sal.Framework.Plain.{plain, Raw, body_of}
use vault_plugin_secrets_sal.Framework.Plain.Lawful.{plain-IsFramework}
use vault_plugin_secrets_sal.Engine.{
  Request, config_write, role_write, creds_read, rotate, serve_all,
}
use vault_plugin_secrets_sal.Backend.{operation, new_paths, IsRouted}
use vault_plugin_secrets_sal.Backend.Routes.{route}
use vault_plugin_secrets_sal.Backend.Routing.{IsRouted-iff}
use vault_plugin_secrets_sal.Backend.Sent.{IsSent, on_path}
use vault_plugin_secrets_sal.Backend.Serving.{AllSent, RolesPlain, serve_all-purged}
use vault_plugin_secrets_sal.Tests.Data.{
  no_memory, at_memory, acme_fields, acme_client_id, app_fields, app,
}

IsRouted-iff_example :
    IsRouted plain
      (new_paths plain)
      "roles/app/rotate"
      (operation update_operation)
      (body_of [])
      (rotate "app")
    ↔ (route plain "roles/app/rotate" (operation update_operation) (body_of [])
        ≡ some (rotate "app"))
IsRouted-iff_example =
    IsRouted-iff plain-IsFramework "roles/app/rotate" (operation update_operation) (body_of [])
      (rotate "app")

routed :
    (route plain "roles/app/rotate" (operation update_operation) (body_of []) ≡ some (rotate "app"))
    × (route plain "token/app" (operation read_operation) (body_of []) ≡ some (creds_read "app"))
    × (route plain "roles/app/other" (operation read_operation) (body_of []) ≡ none)
unfolding route segments plain
routed = (refl, refl, refl)

abbrev acme_body : List (String × Raw)
acme_body =
    ("name", Raw.text "other")
    ∷ ("login_url", Raw.text "https://login.salesforce.com")
    ∷ ("client_id", Raw.text "3MVG9")
    ∷ ("client_secret", Raw.text "s3cret")
    ∷ []

abbrev app_body : List (String × Raw)
app_body =
    ("config", Raw.text "acme")
    ∷ ("grant_type", Raw.text "client_credentials")
    ∷ ("ttl", Raw.number (pos 600))
    ∷ []

acme-IsSent : IsSent plain (config_write acme_fields)
unfolding IsRouted new_paths served_by plain strip_prefix strip_suffix handled_by config_fields
    body_of
acme-IsSent =
    on_path "config/acme" (operation create_operation) (body_of acme_body)
      (config_write acme_fields) (inr (inl refl))

app-IsSent : IsSent plain (role_write app_fields)
unfolding IsRouted new_paths served_by plain strip_prefix strip_suffix handled_by role_fields
    body_of
app-IsSent =
    on_path "roles/app" (operation create_operation) (body_of app_body) (role_write app_fields)
      (inr (inr (inr (inl refl))))

abbrev requests : List Request
requests = config_write acme_fields ∷ role_write app_fields ∷ []

all_sent : AllSent plain requests
all_sent = (acme-IsSent, (app-IsSent, tt))

lock-Keeps : {P : State memory → Type 0} (k : String) → Keeps P (call memory (memory.lock k))
unfolding memory call
lock-Keeps k = record { at = λ s h. h }

start-RolesPlain : RolesPlain memory-IsLawful (at_memory no_memory)
unfolding memory-IsLawful decoded
start-RolesPlain = record { each = λ name r e. cc }

written :
    (path_config_write memory acme_client_id (serve_all memory requests (at_memory no_memory))).0
    ≡ ok empty
unfolding path_config_write write_over store_config memory ◌>>=◌ get_config decoded config_refusal
    merge_config must_re_supply sensitive_change validate_token_host effective_token_url
    trim_slashes has_suffix strip_suffix audit_config log_if host_of delete_cached_tokens_for_config
    delete_each_bound call lift pure try_call check_url has_any_suffix is_loopback_host lookup
    names_below strip_prefix without delete_cached_token delete_if_bound get_role serve_all serve
    path_role_write write_role_over identity_refusal merge_role check_and_store_role validate_role
    config_refusal_for store_role role_refusal seconds_or seconds_or_default of_seconds wrap_int64
    ◌*ℤ◌ memory-IsLawful grant_refusal
written = refl

held :
    stored_role memory-IsLawful (serve_all memory requests (at_memory no_memory)) "app"
    ≡ ok (some app)
unfolding path_config_write write_over store_config memory ◌>>=◌ get_config decoded config_refusal
    merge_config must_re_supply sensitive_change validate_token_host effective_token_url
    trim_slashes has_suffix strip_suffix audit_config log_if host_of delete_cached_tokens_for_config
    delete_each_bound call lift pure try_call check_url has_any_suffix is_loopback_host lookup
    names_below strip_prefix without delete_cached_token delete_if_bound get_role serve_all serve
    path_role_write write_role_over identity_refusal merge_role check_and_store_role validate_role
    config_refusal_for store_role role_refusal seconds_or seconds_or_default of_seconds wrap_int64
    ◌*ℤ◌ memory-IsLawful grant_refusal
held = refl

serve_all-purged_example :
    entry memory-IsLawful
      (path_config_write memory acme_client_id (serve_all memory requests (at_memory no_memory))).1
      ("cache/" <> "app")
    ≡ none
serve_all-purged_example =
    serve_all-purged memory-IsLawful plain-IsFramework lock-Keeps requests (at_memory no_memory)
      acme_client_id all_sent start-RolesPlain written "app" app held refl
