-- ===== src/Tests/Issuing.antt =====
-- Issuing a token, on the platform in memory.
use vault_plugin_secrets_sal.Role.{of_seconds}
use vault_plugin_secrets_sal.Platform.Memory.{lookup, names_below, without}
use vault_plugin_secrets_sal.Jwt.{
  build_jwt_assertion, load_cached_key, load_key, parse_and_store, store_key, wrap_error,
}
use vault_plugin_secrets_sal.Common.Text.{strip_prefix, trim_slashes}
use vault_plugin_secrets_sal.Client.{
  request_client_credentials_token, http_client_for, token_attempts, as_salesforce_error, back_off,
  do_token_request_once, finish, finish_or, is_retryable_status, parse_token_error, read_response,
  read_result, request_jwt_bearer_token,
}
use vault_plugin_secrets_sal.Common.Int.{wrap_int64, neg, ◌*ℤ◌}
use vault_plugin_secrets_sal.Token.{fresh, compute_expiry}
use vault_plugin_secrets_sal.Storage.{
  get_cached_token, decoded, delete_cached_token, put_cached_token,
}
use vault_plugin_secrets_sal.Creds.{
  fresh_cached, then_unlock, issue_locked, mint_and_cache, mint_token, cached_token_of, fail_closed,
  fresh_or_none, issue_contended, serve_or_fail, unexpired_cached, unexpired_or_none,
}
use vault_plugin_secrets_sal.Action.{◌>>=◌, attempt, call, lift, pure, raise, try_call}
use vault_plugin_secrets_sal.Common.{
  true, ℕ, ◌<>◌, [], ◌∷◌, List, ◌≡◌, ◌≤◌, refl, ◌⊎◌, false, none, some, arith,
}
use vault_plugin_secrets_sal.Common.Int.{pos, ◌≤ℤ◌, ◌+ℤ◌}
use vault_plugin_secrets_sal.Errors.{Error, salesforce_error, ok, fail}
use vault_plugin_secrets_sal.Config.{effective_token_url}
use vault_plugin_secrets_sal.Role.Handlers.{role_refusal}
use vault_plugin_secrets_sal.Token.{CachedToken, before, unix}
use vault_plugin_secrets_sal.Platform.{HttpRequest, received}
use vault_plugin_secrets_sal.Platform.Memory.{memory}
use vault_plugin_secrets_sal.Platform.Memory.Lawful.{memory-IsLawful}
use vault_plugin_secrets_sal.Action.{State}
use vault_plugin_secrets_sal.Storage.Stored.{SameEntries, entry}
use vault_plugin_secrets_sal.Client.{Form, is_transient_mint_error, do_token_request}
use vault_plugin_secrets_sal.Platform.{Platform, HttpRequest}
use vault_plugin_secrets_sal.Platform.Exchanges.{posted, redirected, IsRecorded}
use vault_plugin_secrets_sal.Client.Sends.{Sent, do_token_request-Sent}
use vault_plugin_secrets_sal.Creds.{after_mint, issue_token}
use vault_plugin_secrets_sal.Creds.Transient.{after_mint-serves}
use vault_plugin_secrets_sal.Creds.Minting.{after_mint-Refused}
use vault_plugin_secrets_sal.Jwt.{claims_of, parse_rsa_private_key}
use vault_plugin_secrets_sal.Jwt.Lifetime.{claims_of-exp}
use vault_plugin_secrets_sal.Jwt.Keys.{
  parsed_key, IsCoherent, no_keys-IsCoherent, parse_rsa_private_key-parsed_key,
}
use vault_plugin_secrets_sal.Tests.Data.{no_memory, app_memory, at_memory, acme, app}

-- The endpoint is about to give a second token, a minute before the cached one expires.
abbrev answering : State memory
answering = at_memory (record app_memory { answers = received 200 "00Dxx!second" ∷ [] })

abbrev second_token : CachedToken
second_token = record {
  access_token = "00Dxx!second";
  instance_url = "https://acme.my.salesforce.com";
  token_type = "Bearer";
  scope = "api";
  issued_at = pos 882_000_000_000;
  expires_at = pos 1_782_000_000_000;
}

second_is_minted : (issue_token memory "app" acme app answering).0 ≡ ok (second_token, false)
unfolding issue_token memory ◌>>=◌ fresh_cached get_cached_token decoded fresh ◌+ℤ◌ wrap_int64 neg
    then_unlock issue_locked after_mint mint_and_cache mint_token request_client_credentials_token
    do_token_request http_client_for token_attempts attempt call lift pure raise try_call
    as_salesforce_error back_off do_token_request_once finish finish_or is_retryable_status
    is_transient_mint_error parse_token_error read_response read_result request_jwt_bearer_token
    ◌*ℤ◌ trim_slashes effective_token_url cached_token_of fail_closed fresh_or_none issue_contended
    serve_or_fail unexpired_cached unexpired_or_none build_jwt_assertion claims_of load_cached_key
    load_key parse_and_store parse_rsa_private_key store_key wrap_error lookup names_below
    strip_prefix without of_seconds delete_cached_token put_cached_token compute_expiry unix
second_is_minted = refl

abbrev revoked_app : Error
revoked_app = salesforce_error (record {
  status_code = 400;
  code = "invalid_client";
  description = "client identifier invalid";
})

revoked_app-definitive : is_transient_mint_error revoked_app ≡ false
unfolding is_transient_mint_error
revoked_app-definitive = refl

after_mint-Refused_example :
    (((after_mint memory "app" (fail revoked_app) (at_memory app_memory)).0 ≡ fail revoked_app)
      × (entry memory-IsLawful
            (after_mint memory "app" (fail revoked_app) (at_memory app_memory)).1
            ("cache/" <> "app")
          ≡ none))
    ⊎ ((f : Error) × (w : memory.World) × ((after_mint memory "app"
            (fail revoked_app)
            (at_memory app_memory)).0
          ≡ fail f)
        × ((memory.storage_delete ("cache/" <> "app") w).0 ≡ fail f))
after_mint-Refused_example =
    after_mint-Refused memory-IsLawful "app" revoked_app (at_memory app_memory)
      revoked_app-definitive

unfoldable sent_of : memory.World → List HttpRequest
unfolding memory
sent_of m = m.sent

-- The memory platform, whose endpoint redirects every request: `client.Do` posts the form again.
abbrev moved : HttpRequest → HttpRequest
moved r = record r { url = "https://elsewhere.example/token" }

abbrev redirecting : Platform
redirecting = record memory { post = λ c r w. memory.post c (moved r) (memory.post c r w).1 }

abbrev Moves : HttpRequest → HttpRequest → Type 0
Moves r x = x ≡ moved r

redirecting-IsRecorded : IsRecorded redirecting sent_of Moves
unfolding memory sent_of
redirecting-IsRecorded = record {
  sent-post = λ c r w. (2, moved r, omega arith, redirected posted refl);
  sent-context_error = λ w. refl;
  sent-rand_int63n = λ n w. refl;
  sent-wait = λ d w. refl;
}

abbrev redirected_start : State redirecting
unfolding memory
redirected_start = record { world = app_memory; rsa_key_cache = [] }

abbrev secret_form : Form
secret_form = ("grant_type", "client_credentials") ∷ []

do_token_request-Sent_example :
    (k : ℕ) × (k ≤ 3)
    × Sent Moves
        (record { url = effective_token_url acme; form = secret_form })
        (sent_of redirected_start.world)
        k
        (sent_of (do_token_request redirecting acme secret_form redirected_start).1.world)
do_token_request-Sent_example =
    do_token_request-Sent redirecting-IsRecorded acme secret_form redirected_start

app_passes : role_refusal app ≡ none
unfolding role_refusal
app_passes = refl

claims_of-exp_example :
    (unix (pos 7) ≤ℤ (claims_of acme app (pos 7)).exp)
    × ((claims_of acme app (pos 7)).exp ≤ℤ unix (pos 7) +ℤ pos 300)
claims_of-exp_example = claims_of-exp acme app (pos 7) app_passes

parse_rsa_private_key-parsed_key_example :
    ((parse_rsa_private_key memory "PEM" (at_memory no_memory)).0 ≡ parsed_key memory "PEM")
    × IsCoherent memory (parse_rsa_private_key memory "PEM" (at_memory no_memory)).1.rsa_key_cache
unfolding memory
parse_rsa_private_key-parsed_key_example =
    parse_rsa_private_key-parsed_key memory "PEM" (at_memory no_memory) (no_keys-IsCoherent memory)

-- The endpoint fails in a way that may pass.
abbrev outage : Error
outage = salesforce_error (record { status_code = 503; code = ""; description = "" })

outage-transient : is_transient_mint_error outage ≡ true
unfolding is_transient_mint_error
outage-transient = refl

after_mint-serves_example :
    SameEntries memory-IsLawful
      (at_memory app_memory)
      (after_mint memory "app" (fail outage) (at_memory app_memory)).1
    × ((ct : CachedToken)
        → (get_cached_token memory "app" (at_memory app_memory)).0 ≡ ok (some ct)
        → before
            (memory.now (get_cached_token memory "app" (at_memory app_memory)).1.world).0
            ct.expires_at
          ≡ true
        → (after_mint memory "app" (fail outage) (at_memory app_memory)).0 ≡ ok (ct, true))
after_mint-serves_example =
    after_mint-serves memory-IsLawful "app" outage outage-transient (at_memory app_memory)
