-- ===== src/Client/Targets.antt =====
-- Where requests go: what the engine's calls must keep of what was sent, and what minting a token
-- keeps then (client.go, jwt.go).
use vault_plugin_secrets_sal.Common.{String, ℕ, zero, suc, true, false}
use vault_plugin_secrets_sal.Common.Int.{ℤ}
use vault_plugin_secrets_sal.Config.{Config, effective_token_url}
use vault_plugin_secrets_sal.Role.{Role, Duration}
use vault_plugin_secrets_sal.Token.{Time, TokenResult}
use vault_plugin_secrets_sal.Platform.{
  Platform, HttpClient, HttpRequest, HttpResult, not_sent, unreadable, received, LogLine,
}
use vault_plugin_secrets_sal.Action.{Action, State, call, try_call}
use vault_plugin_secrets_sal.Action.Keeps.{
  Keeps, Keeps-bind, Keeps-option, Keeps-pure, Keeps-raise, keeps_rules,
}
use vault_plugin_secrets_sal.Jwt.{
  store_key, load_cached_key, parse_and_store, parse_rsa_private_key, build_jwt_assertion,
}
use vault_plugin_secrets_sal.Client.{
  Form, Attempt, got, refused, read_result, do_token_request_once, back_off, finish, finish_or,
  token_attempts, do_token_request, request_client_credentials_token, request_jwt_bearer_token,
}

-- The calls of the platform that keep `P`: those that change no entry and do not wait for a lock,
-- and a POST if its request is allowed. The key cache of the process does not matter to `P`.
pub record Calls (V : Platform) (P : State V → Type 0) (Allowed : HttpRequest → Type 0)
    : Type 0 where
  pub now : Keeps P (call V V.now)
  pub context_error : Keeps P (call V V.context_error)
  pub rand_int63n : (n : ℤ) → Keeps P (call V (V.rand_int63n n))
  pub wait : (d : Duration) → Keeps P (call V (V.wait d))
  pub try_lock : (k : String) → Keeps P (call V (V.try_lock k))
  pub unlock : (k : String) → Keeps P (call V (V.unlock k))
  pub log : (l : LogLine) → Keeps P (call V (V.log l))
  pub get : (k : String) → Keeps P (try_call V (V.storage_get k))
  pub store : (pem : String) (key : V.Key) → Keeps P (store_key V pem key)
  pub post :
      (client : HttpClient) (r : HttpRequest) → Allowed r → Keeps P (call V (V.post client r))

module _ {V : Platform} {P : State V → Type 0} {Allowed : HttpRequest → Type 0}
    (C : Calls V P Allowed) where
  Keeps-load_cached_key : (pem : String) → Keeps P (load_cached_key V pem)
  unfolding load_cached_key
  Keeps-load_cached_key pem = record { at = λ s h. h }

  Keeps-parse_and_store : (pem : String) → Keeps P (parse_and_store V pem)
  unfolding parse_and_store
  Keeps-parse_and_store pem = search (keeps_rules, C.store)

  Keeps-parse_rsa_private_key : (pem : String) → Keeps P (parse_rsa_private_key V pem)
  unfolding parse_rsa_private_key
  Keeps-parse_rsa_private_key pem =
      search (keeps_rules, Keeps-load_cached_key, Keeps-parse_and_store)

  Keeps-build_jwt_assertion :
      (cfg : Config) (role : Role) (now : Time) → Keeps P (build_jwt_assertion V cfg role now)
  unfolding build_jwt_assertion
  Keeps-build_jwt_assertion cfg role now = search (keeps_rules, Keeps-parse_rsa_private_key)

  Keeps-read_result : (r : HttpResult) → Keeps P (read_result V r)
  unfolding read_result
  Keeps-read_result (not_sent e) =
      Keeps-bind _ _ C.context_error λ x. Keeps-option x _ _ (Keeps-pure _) (λ _. Keeps-pure _)
  Keeps-read_result (unreadable status e) = search keeps_rules
  Keeps-read_result (received status body) = search keeps_rules

  Keeps-back_off : (attempt : ℕ) → Keeps P (back_off V attempt)
  unfolding back_off
  Keeps-back_off attempt = search (keeps_rules, C.rand_int63n, C.wait)

  Keeps-finish : (o : Attempt) → Keeps P (finish V o)
  unfolding finish
  Keeps-finish (got res) = search keeps_rules
  Keeps-finish (refused b e) = search keeps_rules

  Keeps-finish_or :
      (next : Action V TokenResult) (o : Attempt) → Keeps P next → Keeps P (finish_or V next o)
  unfolding finish_or
  Keeps-finish_or next (got res) k = search keeps_rules
  Keeps-finish_or next (refused false e) k = search keeps_rules
  Keeps-finish_or next (refused true e) k = k

  -- What may be sent to the token endpoint of the configuration.
  module _ (cfg : Config)
      (allowed : (form : Form)
        → Allowed (record { url = effective_token_url cfg; form = form })) where
    Keeps-do_token_request_once :
        (client : HttpClient) (form : Form) → Keeps P (do_token_request_once V client cfg form)
    unfolding do_token_request_once
    Keeps-do_token_request_once client form =
        let sent = C.post client _ (allowed form) in search (keeps_rules, sent, Keeps-read_result)

    Keeps-token_attempts :
        (client : HttpClient) (form : Form) (left attempt : ℕ)
        → Keeps P (token_attempts V client cfg form left attempt)
    unfolding token_attempts
    Keeps-token_attempts client form zero attempt =
        search (keeps_rules, Keeps-do_token_request_once, Keeps-finish)
    Keeps-token_attempts client form (suc left) attempt =
        let again = Keeps-token_attempts client form left (suc attempt) in
        Keeps-bind _ _ (Keeps-do_token_request_once client form) λ o. Keeps-finish_or _ o (
          Keeps-bind _ _ (Keeps-back_off attempt)
            λ x. Keeps-option x _ _ again (λ e. Keeps-raise e))

    Keeps-do_token_request : (form : Form) → Keeps P (do_token_request V cfg form)
    unfolding do_token_request
    Keeps-do_token_request form = search (keeps_rules, Keeps-token_attempts)

    pub Keeps-request_client_credentials_token : Keeps P (request_client_credentials_token V cfg)
    unfolding request_client_credentials_token
    Keeps-request_client_credentials_token = Keeps-do_token_request _

    pub Keeps-request_jwt_bearer_token :
        (role : Role) → Keeps P (request_jwt_bearer_token V cfg role)
    unfolding request_jwt_bearer_token
    Keeps-request_jwt_bearer_token role =
        Keeps-bind _ _ C.now λ now.
          Keeps-bind _ _ (Keeps-build_jwt_assertion cfg role now) λ a. Keeps-do_token_request _
