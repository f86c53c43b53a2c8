-- ===== src/Tests/Revoking.antt =====
-- The memory with the fake revocation endpoint, and the end of a lease on it.
use vault_plugin_secrets_sal.Common.Text.{has_suffix, strip_suffix, trim_suffix}
use vault_plugin_secrets_sal.Storage.{decoded}
use vault_plugin_secrets_sal.Client.{http_client_for}
use vault_plugin_secrets_sal.Common.{
  ℕ, String, ◌≡◌, ◌≢◌, refl, ap, true, false, none, List, [], ◌∷◌, ◌++◌, ◌==◌, if◌then◌else◌,
}
use vault_plugin_secrets_sal.Common.Int.{pos_part}
use vault_plugin_secrets_sal.Errors.{Error}
use vault_plugin_secrets_sal.Config.{Config, revoke_url}
use vault_plugin_secrets_sal.Role.{Role}
use vault_plugin_secrets_sal.Platform.{Platform, HttpRequest, received}
use vault_plugin_secrets_sal.Platform.Laws.{IsLawful}
use vault_plugin_secrets_sal.Platform.Memory.{memory, config_entry, role_entry, token_entry}
use vault_plugin_secrets_sal.Platform.Memory.Lawful.{memory-IsLawful}
use vault_plugin_secrets_sal.Action.{State}
use vault_plugin_secrets_sal.Lease.{role_named, secret_access_token_revoke}
use vault_plugin_secrets_sal.MockServer.{MockServer, new_mock_server, form_get, handle_revoke}
use vault_plugin_secrets_sal.MockServer.Serving.{form_of-values_of}
use vault_plugin_secrets_sal.MockServer.Revoking.{Revokes}
use vault_plugin_secrets_sal.MockServer.Revocation.{ended, secret_access_token_revoke-revoked}
use vault_plugin_secrets_sal.Tests.Data.{app_memory, acme, app, app_token}

abbrev endpoint : String
endpoint = "https://mock"

-- The tokens of the requests to the revocation endpoint, the latest request first.
unfoldable tokens_of : List HttpRequest → List String
tokens_of [] = []
tokens_of (r ∷ sent) =
    let before = tokens_of sent in
    if r.url == "https://mock/services/oauth2/revoke"
    then before ++ form_get "token" r.form ∷ []
    else before

-- The memory, with an endpoint that answers.
unfoldable site : Platform
unfolding memory
site = record memory { post = λ c r m. (received 200 "", record m { sent = r ∷ m.sent }) }

unfoldable server : site.World → MockServer
unfolding site new_mock_server tokens_of
server m = record (new_mock_server endpoint) { revoked_tokens = tokens_of m.sent }

abbrev decimal : ℕ → String
decimal n = ""

abbrev message : Error → String
message e = "error"

unfoldable site-IsLawful : IsLawful site
unfolding site memory-IsLawful
site-IsLawful = record {
  view = memory-IsLawful.view;
  storage = record {
    get-view = memory-IsLawful.storage.get-view;
    view-get = memory-IsLawful.storage.view-get;
    put-view = memory-IsLawful.storage.put-view;
    view-put = memory-IsLawful.storage.view-put;
    delete-view = memory-IsLawful.storage.delete-view;
    view-delete = memory-IsLawful.storage.view-delete;
    list-view = memory-IsLawful.storage.list-view;
    view-list = memory-IsLawful.storage.view-list;
  };
  quiet = record {
    view-try_lock = memory-IsLawful.quiet.view-try_lock;
    view-unlock = memory-IsLawful.quiet.view-unlock;
    view-now = memory-IsLawful.quiet.view-now;
    view-rand_int63n = memory-IsLawful.quiet.view-rand_int63n;
    view-wait = memory-IsLawful.quiet.view-wait;
    view-context_error = memory-IsLawful.quiet.view-context_error;
    view-post = λ c r m j. refl;
    view-log = memory-IsLawful.quiet.view-log;
  };
  config_json = record { decode-encode = memory-IsLawful.config_json.decode-encode };
  role_json = record { decode-encode = memory-IsLawful.role_json.decode-encode };
  token_json = record { decode-encode = memory-IsLawful.token_json.decode-encode };
}

site-Revokes : Revokes site-IsLawful server decimal message
unfolding server handle_revoke
site-Revokes = record {
  encode = λ b. "";
  answer-revoke = λ c form w same final below. ap (λ x. received (pos_part x) "") same;
  server-revoke = λ c form w. rw (form_of-values_of form) refl;
  get-returns = λ k w. (_, refl);
  server-get = λ k w. refl;
  server-delete = λ k w. refl;
  server-log = λ l w. refl;
}

-- The role asks for the revocation of its tokens.
abbrev revoking_app : Role
revoking_app = record app { revoke_tokens = true }

abbrev mocked : Config
mocked = record acme { token_url = "https://mock/services/oauth2/token" }

abbrev leased : State site
unfolding site
leased = record {
  world = record app_memory {
    entries =
        ("config/acme", config_entry mocked)
        ∷ ("role/app", role_entry revoking_app)
        ∷ ("cache/app", token_entry app_token)
        ∷ [];
  };
  rsa_key_cache = [];
}

present : ◌≢◌ {A = String} "app" ""
present p = cc

named : app_token.access_token ≢ ""
named p = cc

secret_access_token_revoke-revoked_example :
    server (secret_access_token_revoke site (role_named "app") leased).1.world
    ≡ ended revoking_app app_token (server leased.world)
unfolding http_client_for site decoded site-IsLawful revoke_url server has_suffix strip_suffix
    trim_suffix
secret_access_token_revoke-revoked_example =
    secret_access_token_revoke-revoked site-IsLawful server decimal message site-Revokes "app"
      revoking_app mocked app_token (record { insecure_skip_verify = false; root_cas = none }) refl
      refl named leased refl refl refl refl present
