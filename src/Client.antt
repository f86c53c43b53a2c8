-- ===== src/Client.antt =====
-- client.go: the token endpoint's client, with its retries, and the revocation call.
pub mod Frames
pub mod Sends
pub mod Targets
pub mod Waits
pub mod Revokes
use vault_plugin_secrets_sal.Common.{
  ℕ, zero, suc, ◌+◌, ◌-◌, ◌*◌, ◌/◌, ◌^◌, String, Bool, true, false, not, ◌||◌, Option, none, some,
  List, [], ◌∷◌, ◌==◌, leb, num_eq, on_nil, if◌then◌else◌,
}
use vault_plugin_secrets_sal.Common.Int.{pos, ◌+ℤ◌}
use vault_plugin_secrets_sal.Errors.{
  SalesforceError, Error, salesforce_error, external, errorf, wrapped, number, Outcome, ok, fail,
  on_error,
}
use vault_plugin_secrets_sal.Config.{Config, effective_token_url, revoke_url}
use vault_plugin_secrets_sal.Role.{Role, grant_client_credential}
use vault_plugin_secrets_sal.Token.{TokenResult}
use vault_plugin_secrets_sal.Platform.{
  Platform, HttpClient, HttpResult, not_sent, unreadable, received,
}
use vault_plugin_secrets_sal.Action.{Action, pure, raise, lift, call, ◌>>=◌, ◌>>◌}
use vault_plugin_secrets_sal.Jwt.{build_jwt_assertion}

abbrev pub jwt_bearer_grant_type : String
jwt_bearer_grant_type = "urn:ietf:params:oauth:grant-type:jwt-bearer"

-- A form: `url.Values` with one value for each key.
abbrev pub Form : Type 0
Form = List (String × String)

unfoldable pub is_retryable_status : ℕ → Bool
is_retryable_status status = num_eq status 429 || leb 500 status

-- errors.As(err, &sfErr)
unfoldable pub as_salesforce_error : Error → Option SalesforceError
as_salesforce_error (salesforce_error e) = some e
as_salesforce_error (external message) = none
as_salesforce_error (errorf format args) = none
as_salesforce_error (wrapped format args e) = as_salesforce_error e

unfoldable pub is_transient_mint_error : Error → Bool
unfolding as_salesforce_error is_retryable_status
is_transient_mint_error e = elim (as_salesforce_error e) [
  | none ↦ true
  | some sf ↦ is_retryable_status sf.status_code
]

-- What one request gives: a token, or an error that may or may not be worth a retry.
pub data Attempt : Type 0 where
  got : TokenResult → Attempt
  refused : Bool → Error → Attempt

-- tokenRetryMaxAttempts, and tokenRetryBaseBackoff in nanoseconds
abbrev pub token_retry_max_attempts : ℕ
token_retry_max_attempts = 3

abbrev pub token_retry_base_backoff : ℕ
token_retry_base_backoff = 200_000_000

-- The backoff before attempt `attempt + 1`, without its jitter.
abbrev pub backoff : ℕ → ℕ
backoff attempt = token_retry_base_backoff * 2 ^ attempt

module _ (V : Platform) where
  unfoldable pub http_client_for : Config → Outcome HttpClient
  http_client_for cfg =
      if not (cfg.ca_cert == "")
      then (if not (V.append_certs cfg.ca_cert)
          then fail (errorf "failed to parse ca_cert PEM" [])
          else ok
              (record { insecure_skip_verify = cfg.tls_skip_verify; root_cas = some cfg.ca_cert }))
      else ok (record { insecure_skip_verify = cfg.tls_skip_verify; root_cas = none })

  unfoldable pub parse_token_error : ℕ → String → Error
  parse_token_error status body = elim (V.unmarshal_error body) [
    | ok (code, description) ↦
        salesforce_error (record { status_code = status; code = code; description = description })
    | fail e ↦ salesforce_error (record { status_code = status; code = ""; description = "" })
  ]

  -- What a response of the token endpoint means.
  unfoldable pub read_response : ℕ → String → Attempt
  unfolding parse_token_error is_retryable_status
  read_response status body =
      if not (num_eq status 200)
      then refused (is_retryable_status status) (parse_token_error status body)
      else elim (V.unmarshal_token body) [
        | fail e ↦ refused false (wrapped "decoding token response: %w" [] e)
        | ok parsed ↦
            if parsed.access_token == ""
            then refused false (errorf "token response contained no access_token" [])
            else got parsed
      ]

  unfoldable pub read_result : HttpResult → Action V Attempt
  unfolding read_response
  read_result (not_sent e) = do
    ended ← call V V.context_error
    on_nil ended (pure (refused true (wrapped "token request failed: %w" [] e)))
        (λ _. pure (refused false (wrapped "token request failed: %w" [] e)))
  read_result (unreadable status e) =
      pure (refused true (wrapped "reading token response: %w" [] e))
  read_result (received status body) = pure (read_response status body)

  -- `V.post` is `client.Do`: one exchange, which follows redirects (Platform/Exchanges).
  unfoldable pub do_token_request_once : HttpClient → Config → Form → Action V Attempt
  unfolding read_result
  do_token_request_once client cfg form =
      on_error (V.new_request (effective_token_url cfg)) (λ e. pure (refused false e))
        λ _. do
          result ← call V (V.post client (record { url = effective_token_url cfg; form = form }))
          read_result result

  -- The wait before attempt `attempt + 1`, with jitter; an error if the context ends first.
  unfoldable pub back_off : ℕ → Action V (Option Error)
  back_off attempt = do
    jitter ← call V (V.rand_int63n (pos (backoff attempt / 2 + 1)))
    call V (V.wait (pos (backoff attempt) +ℤ jitter))

  -- After the last round, and after a round that others may follow: `next` is the wait and they.
  unfoldable pub finish : Attempt → Action V TokenResult
  finish (got res) = pure res
  finish (refused retryable e) = raise e

  unfoldable pub finish_or : Action V TokenResult → Attempt → Action V TokenResult
  finish_or next (got res) = pure res
  finish_or next (refused false e) = raise e
  finish_or next (refused true e) = next

  -- The rounds of the loop from `attempt` on, when `left` more may follow it. The test of the
  -- loop is made after a failure, since the first round is always entered.
  unfoldable pub token_attempts : HttpClient → Config → Form → ℕ → ℕ → Action V TokenResult
  unfolding finish finish_or
  token_attempts client cfg form zero attempt = do
    outcome ← do_token_request_once client cfg form
    finish outcome
  token_attempts client cfg form (suc left) attempt = do
    outcome ← do_token_request_once client cfg form
    let next = do
      ended ← back_off attempt
      on_nil ended (token_attempts client cfg form left (suc attempt)) (λ stop. raise stop)
    finish_or next outcome

  unfoldable pub do_token_request : Config → Form → Action V TokenResult
  do_token_request cfg form = do
    client ← lift (http_client_for cfg)
    token_attempts client cfg form (token_retry_max_attempts - 1) 0

  unfoldable pub request_client_credentials_token : Config → Action V TokenResult
  request_client_credentials_token cfg = do_token_request cfg (
      ("grant_type", grant_client_credential)
      ∷ ("client_id", cfg.client_id)
      ∷ ("client_secret", cfg.client_secret)
      ∷ [])

  unfoldable pub request_jwt_bearer_token : Config → Role → Action V TokenResult
  request_jwt_bearer_token cfg role = do
    now ← call V V.now
    assertion ← build_jwt_assertion V cfg role now
    do_token_request cfg (("grant_type", jwt_bearer_grant_type) ∷ ("assertion", assertion) ∷ [])

  -- What the answer to a revocation means.
  unfoldable pub revoke_result : HttpResult → Outcome (Unit {0})
  revoke_result (not_sent e) = fail (wrapped "revoke request failed: %w" [] e)
  revoke_result (unreadable status e) =
      if not (num_eq status 200)
      then fail (errorf "salesforce revoke returned HTTP %d" (number status ∷ []))
      else ok tt
  revoke_result (received status body) =
      if not (num_eq status 200)
      then fail (errorf "salesforce revoke returned HTTP %d" (number status ∷ []))
      else ok tt

  -- The exchange of a revocation follows redirects too.
  unfoldable pub revoke_token : Config → String → Action V (Unit {0})
  unfolding revoke_result
  revoke_token cfg access_token = if access_token == "" then pure tt else do
    client ← lift (http_client_for cfg)
    lift (V.new_request (revoke_url cfg))
    result ←
        call V
          (V.post client (record { url = revoke_url cfg; form = ("token", access_token) ∷ [] }))
    lift (revoke_result result)
