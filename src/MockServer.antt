-- ===== src/MockServer.antt =====
-- internal/sftest/mock_server.go: the fake Salesforce endpoints that the repository's tests run the
-- client against, each handler as a function on the server's state.
pub mod Serving
pub mod Rounds
pub mod Retries
pub mod Revoking
pub mod Revocation
use vault_plugin_secrets_sal.Common.{
  ℕ, zero, suc, String, ◌<>◌, Bool, not, Option, none, some, List, [], ◌∷◌, ◌++◌, ◌==◌, on_nil,
  if◌then◌else◌,
}
use vault_plugin_secrets_sal.Common.Int.{ℤ, pos, negsuc}
use vault_plugin_secrets_sal.Errors.{Error, Outcome, ok, fail}
use vault_plugin_secrets_sal.Client.{Form, jwt_bearer_grant_type}

-- Go's `len`.
unfoldable pub length : List String → ℕ
length [] = 0
length (s ∷ l) = suc (length l)

-- `r.Form` after `r.ParseForm()`: the values of each key.
abbrev pub Values : Type 0
Values = List (String × List String)

-- The first value, as `Form.Get` gives it.
abbrev pub first_value : List String → String
first_value [] = ""
first_value (v ∷ vs) = v

unfoldable pub form_of : Values → Form
form_of [] = []
form_of ((k, vs) ∷ values) = (k, first_value vs) ∷ form_of values

-- `form[key]`, empty where the key is missing.
unfoldable pub form_get : String → Form → String
form_get key [] = ""
form_get key ((k, v) ∷ form) = let rest = form_get key form in if k == key then v else rest

pub record TokenResponse : Type 0 where
  pub access_token : String
  pub instance_url : String
  pub token_type : String
  pub scope : String
  pub expires_in : ℤ

-- What a handler writes: a text of `http.Error`, an OAuth error, a token, or nothing.
pub data Body : Type 0 where
  plain : String → Body
  oauth_error : String → String → Body
  token_body : TokenResponse → Body
  no_body : Body

-- `slept` is the sleep before the answer, in nanoseconds.
pub record Response : Type 0 where
  pub status : ℤ
  pub body : Body
  pub slept : ℤ

pub record MockServer : Type 0 where
  pub server_url : String
  pub requests : List Form
  pub fail_mode : String
  pub token_base : String
  pub mint_counter : ℕ
  pub instance_url : String
  pub assertion_validator : Option (String → Option Error)
  pub mint_delay : ℤ
  pub transient_fails : ℤ
  pub transient_code : ℤ
  pub revoked_tokens : List String

-- `New`, with the URL of the listener.
unfoldable pub new_mock_server : String → MockServer
new_mock_server url = record {
  server_url = url;
  requests = [];
  fail_mode = "";
  token_base = "00Dxx0000000000";
  mint_counter = 0;
  instance_url = url;
  assertion_validator = none;
  mint_delay = pos 0;
  transient_fails = pos 0;
  transient_code = pos 0;
  revoked_tokens = [];
}

abbrev pub token_url : MockServer → String
token_url m = m.server_url <> "/services/oauth2/token"

abbrev pub set_fail_mode : String → MockServer → MockServer
set_fail_mode mode m = record m { fail_mode = mode }

abbrev pub set_assertion_validator : Option (String → Option Error) → MockServer → MockServer
set_assertion_validator fn m = record m { assertion_validator = fn }

abbrev pub set_mint_delay : ℤ → MockServer → MockServer
set_mint_delay d m = record m { mint_delay = d }

abbrev pub set_transient_failures : ℤ → ℤ → MockServer → MockServer
set_transient_failures n status m = record m { transient_fails = n; transient_code = status }

-- `MintCount` and `RevokeCount`; `Requests` and `RevokedTokens` are the fields.
abbrev pub mint_count : MockServer → ℕ
mint_count m = m.mint_counter

unfoldable pub revoke_count : MockServer → ℕ
revoke_count m = length m.revoked_tokens

abbrev is_positive : ℤ → Bool
is_positive (pos zero) = Bool.false
is_positive (pos (suc n)) = Bool.true
is_positive (negsuc n) = Bool.false

abbrev is_zero : ℤ → Bool
is_zero (pos zero) = Bool.true
is_zero (pos (suc n)) = Bool.false
is_zero (negsuc n) = Bool.false

-- `n--`, short of the least `int`.
abbrev decrement : ℤ → ℤ
decrement (pos zero) = negsuc 0
decrement (pos (suc n)) = pos n
decrement (negsuc n) = negsuc (suc n)

-- The status of a transient failure: 503 where none is set.
abbrev pub transient_status : ℤ → ℤ
transient_status code = if is_zero code then pos 503 else code

-- What `handleToken` keeps when it leaves its first critical section.
pub record Admitted : Type 0 where
  pub fail_mode : String
  pub validator : Option (String → Option Error)
  pub mint_delay : ℤ
  pub transient : ℤ

-- The first critical section.
unfoldable pub admit : Form → MockServer → Admitted × MockServer
admit form m =
    let fails = is_positive m.transient_fails in
    (
      record {
        fail_mode = m.fail_mode;
        validator = m.assertion_validator;
        mint_delay = m.mint_delay;
        transient = if fails then transient_status m.transient_code else pos 0;
      },
      record m {
        requests = m.requests ++ form ∷ [];
        transient_fails = if fails then decrement m.transient_fails else m.transient_fails;
      },
    )

-- What the validator says of the assertion, where there is one and the grant is the JWT one.
unfoldable pub assertion_error : Form → Option (String → Option Error) → Option Error
assertion_error form none = none
assertion_error form (some validator) =
    if form_get "grant_type" form == jwt_bearer_grant_type
    then validator (form_get "assertion" form)
    else none

-- `decimal` is `%d` of fmt, and `error_text` is `err.Error()`.
module _ (decimal : ℕ → String) (error_text : Error → String) where
  abbrev write_oauth_error : ℕ → String → String → Response
  write_oauth_error status code desc = record {
    status = pos status;
    body = oauth_error code desc;
    slept = pos 0;
  }

  abbrev http_error : String → ℤ → Response
  http_error message status = record { status = status; body = plain message; slept = pos 0 }

  abbrev pub token_of : MockServer → ℕ → String
  token_of m n = m.token_base <> "!mint" <> decimal n

  abbrev pub response_of : Form → MockServer → TokenResponse
  response_of form m = record {
    access_token = token_of m m.mint_counter;
    instance_url = m.instance_url;
    token_type = "Bearer";
    scope = form_get "scope" form;
    expires_in = pos 0;
  }

  -- From the sleep on, with the second critical section.
  unfoldable pub mint : Form → Admitted → MockServer → Response × MockServer
  mint form a m =
      let m' = record m { mint_counter = suc m.mint_counter } in
      (
        record {
          status = pos 200;
          body = token_body (response_of form m');
          slept = if is_positive a.mint_delay then a.mint_delay else pos 0;
        },
        m',
      )

  -- Between the critical sections.
  unfoldable pub respond : Form → Admitted → MockServer → Response × MockServer
  respond form a m =
      if not (is_zero a.transient)
      then (http_error "transient failure" a.transient, m)
      else if not (a.fail_mode == "")
      then (if a.fail_mode == "server_error"
          then (http_error "boom" (pos 500), m)
          else (write_oauth_error 400 a.fail_mode ("mock failure: " <> a.fail_mode), m))
      else on_nil (assertion_error form a.validator) (mint form a m)
          (λ e. (write_oauth_error 400 "invalid_grant" (error_text e), m))

  unfoldable pub handle_token : Outcome Values → MockServer → Response × MockServer
  handle_token (fail e) m = (write_oauth_error 400 "invalid_request" (error_text e), m)
  handle_token (ok values) m =
      let form = form_of values in let admitted = admit form m in respond form admitted.0 admitted.1

  unfoldable pub handle_revoke : Outcome Values → MockServer → Response × MockServer
  handle_revoke (fail e) m = (http_error (error_text e) (pos 400), m)
  handle_revoke (ok values) m = (
    record { status = pos 200; body = no_body; slept = pos 0 },
    record m { revoked_tokens = m.revoked_tokens ++ form_get "token" (form_of values) ∷ [] },
  )
