-- ===== src/Tests/Mocked.antt =====
-- A platform whose network is the fake endpoints, and the client against it.
use vault_plugin_secrets_sal.Common.{
  ℕ, zero, suc, ◌≤◌, String, ◌<>◌, ◌≡◌, refl, sym, ap, ◌⊎◌, true, false, none, List, [], ◌∷◌, ◌==◌,
  if◌then◌else◌, arith,
}
use vault_plugin_secrets_sal.Common.Int.{pos, pos_part}
use vault_plugin_secrets_sal.Errors.{Error, external, Outcome, ok, fail}
use vault_plugin_secrets_sal.Config.{Config, effective_token_url}
use vault_plugin_secrets_sal.Token.{TokenResult}
use vault_plugin_secrets_sal.Platform.{Platform, HttpRequest, HttpResult, not_sent, received}
use vault_plugin_secrets_sal.Action.{State}
use vault_plugin_secrets_sal.Client.{
  Form, do_token_request, is_transient_mint_error, is_retryable_status, http_client_for,
}
use vault_plugin_secrets_sal.MockServer.{
  MockServer, Response, TokenResponse, Body, plain, oauth_error, token_body, no_body,
  new_mock_server, set_transient_failures, admit, respond, mint, assertion_error, handle_token,
  form_of, form_get,
}
use vault_plugin_secrets_sal.MockServer.Serving.{values_of, Serves}
use vault_plugin_secrets_sal.MockServer.Rounds.{after, next_token}
use vault_plugin_secrets_sal.MockServer.Retries.{do_token_request-retries}
use vault_plugin_secrets_sal.Tests.Data.{acme}

-- What changes of the server in a run of the client.
record Counts : Type 0 where
  requests : List Form
  fails : ℕ
  minted : ℕ

abbrev endpoint : String
endpoint = "https://mock"

-- It fails with 503 while failures are left.
unfoldable server : Counts → MockServer
unfolding new_mock_server
server w = record (set_transient_failures (pos w.fails) (pos 503) (new_mock_server endpoint)) {
  requests = w.requests;
  mint_counter = w.minted;
}

counts_of : MockServer → Counts
counts_of m = record {
  requests = m.requests;
  fails = pos_part m.transient_fails;
  minted = m.mint_counter;
}

-- Numbers in unary, the message of an error, and the bodies by their first text.
unary : ℕ → String
unary zero = ""
unary (suc n) = "I" <> unary n

abbrev message : Error → String
message e = "error"

encoded : Body → String
encoded (plain s) = s
encoded (oauth_error code desc) = code
encoded (token_body r) = r.access_token
encoded no_body = ""

abbrev run : Form → Counts → Response × MockServer
run form w = handle_token unary message (ok (values_of form)) (server w)

abbrev reply : Response → HttpResult
reply r = received (pos_part r.status) (encoded r.body)

unfoldable post : HttpRequest → Counts → HttpResult × Counts
unfolding counts_of encoded
post r w =
    if r.url == endpoint <> "/services/oauth2/token"
    then (reply (run r.form w).0, counts_of (run r.form w).1)
    else (not_sent (external "connection refused"), w)

unfoldable mocked : Platform
unfolding post
mocked = record {
  World = Counts;
  Entry = Config;
  Key = String;
  storage_get = λ k w. (ok none, w);
  storage_put = λ k e w. (ok tt, w);
  storage_delete = λ k w. (ok tt, w);
  storage_list = λ p w. (ok [], w);
  config_json = record { encode = λ c. ok c; decode = λ c. ok c };
  role_json = record { encode = λ r. fail (external "none"); decode = λ c. fail (external "none") };
  token_json = record {
    encode = λ t. fail (external "none");
    decode = λ c. fail (external "none");
  };
  try_lock = λ k w. (true, w);
  lock = λ k w. (tt, w);
  unlock = λ k w. (tt, w);
  now = λ w. (pos 0, w);
  rand_int63n = λ n w. (pos 0, w);
  wait = λ d w. (none, w);
  context_error = λ w. (none, w);
  post = λ c r w. post r w;
  log = λ l w. (tt, w);
  url_parse = λ s. fail (external "not a URL");
  to_lower = λ s. s;
  trim_space = λ s. s;
  parse_ip = λ s. none;
  new_request = λ s. ok tt;
  append_certs = λ s. true;
  unmarshal_token = λ s. ok (record {
    access_token = s;
    instance_url = endpoint;
    token_type = "Bearer";
    scope = "";
    expires_in = pos 0;
  });
  unmarshal_error = λ s. fail (external "not JSON");
  parse_rsa_key = λ s. ok s;
  sign_rs256 = λ c k. ok "assertion";
}

abbrev form : Form
form = ("grant_type", "client_credentials") ∷ []

status-received :
    (w : Counts) {n : ℕ}
    → (run form w).0.status ≡ pos n
    → reply (run form w).0 ≡ received n (encoded (run form w).0.body)
status-received w h = rw h refl

abbrev counts : List Form → ℕ → ℕ → Counts
counts l f n = record { requests = l; fails = f; minted = n }

counts-server :
    (l : List Form) (f n : ℕ)
    → server (counts_of (run form (counts l f n)).1) ≡ (run form (counts l f n)).1
unfolding server counts_of handle_token form_of admit respond mint new_mock_server assertion_error
counts-server l zero n = refl
counts-server l (suc f) n = refl

-- The token of a body, if it has one.
abbrev token_in : TokenResponse → Body → TokenResponse
token_in r (token_body t) = t
token_in r _ = r

-- The body of a token is its first text.
body-token :
    (l : List Form) (f n : ℕ) {r : TokenResponse}
    → (run form (counts l f n)).0.body ≡ token_body r
    → (r.instance_url ≡ endpoint)
      × (r.token_type ≡ "Bearer")
      × (r.scope ≡ "")
      × (r.expires_in ≡ pos 0)
unfolding server handle_token form_of admit respond mint new_mock_server form_get assertion_error
body-token l zero n {r = r} same =
    let e = sym (ap (token_in r) same) in
    (
      ap (λ x. x.instance_url) e,
      ap (λ x. x.token_type) e,
      ap (λ x. x.scope) e,
      ap (λ x. x.expires_in) e,
    )
body-token l (suc f) n same = cc

abbrev on_mocked : mocked.World → MockServer
unfolding mocked
on_mocked = server

mocked-Serves : Serves mocked on_mocked unary message form
unfolding mocked on_mocked server
mocked-Serves = record {
  encode = encoded;
  answer-token = λ c w same final below. (status-received w same);
  server-token = λ c w. (counts-server w.requests w.fails w.minted);
  unmarshal-encode = λ w same.
      let (url, kind, scope, never) = body-token w.requests w.fails w.minted same in
      rw (url, kind, scope, never) refl;
  server-rand_int63n = λ n w. refl;
  server-wait = λ d w. refl;
  wait-none = λ d w. refl;
}

abbrev mocked_config : Config
mocked_config = record acme { token_url = "https://mock/services/oauth2/token" }

-- The endpoint fails twice.
abbrev failing : State mocked
unfolding mocked
failing = record { world = counts [] 2 0; rsa_key_cache = [] }

abbrev asked : Outcome TokenResult × State mocked
asked = do_token_request mocked mocked_config form failing

do_token_request-retries_example :
    ((2 ≤ 2)
      × (asked.0 ≡ ok (next_token unary message form (on_mocked failing.world)))
      × (on_mocked asked.1.world ≡ after 3 form 0 1 (on_mocked failing.world)))
    ⊎ ((3 ≤ 2)
        × ((e : Error) × (asked.0 ≡ fail e) × (is_transient_mint_error e ≡ true))
        × (on_mocked asked.1.world ≡ after 3 form 0 0 (on_mocked failing.world)))
unfolding failing on_mocked mocked effective_token_url is_retryable_status http_client_for server
    assertion_error
do_token_request-retries_example =
    do_token_request-retries unary message mocked on_mocked mocked_config form mocked-Serves
      (record { insecure_skip_verify = false; root_cas = none }) refl refl 2 503 failing refl refl
      refl refl (omega arith) refl refl
