-- ===== src/MockServer/Retries.antt =====
-- client.go `doTokenRequest` against the fake token endpoint, with the failures that
-- `SetTransientFailures` sets.
use mathlib.Core.List.{append_assoc}
use native.Mathlib.Decide.{dec_lt}
use vault_plugin_secrets_sal.Common.{
  ℕ, zero, suc, ◌-◌, ◌≤◌, ◌<◌, ◌≡◌, refl, ◌⊎◌, String, true, none, [], ◌∷◌, arith, inl, inr,
}
use vault_plugin_secrets_sal.Common.Int.{pos}
use vault_plugin_secrets_sal.Errors.{Error, Outcome, ok, fail, Outcome-cases}
use vault_plugin_secrets_sal.Config.{Config, effective_token_url}
use vault_plugin_secrets_sal.Platform.{Platform, HttpClient}
use vault_plugin_secrets_sal.Action.{Action, State}
use vault_plugin_secrets_sal.Client.{
  Form, is_retryable_status, is_transient_mint_error, as_salesforce_error, parse_token_error,
  http_client_for, finish, finish_or, token_attempts, do_token_request,
}
use vault_plugin_secrets_sal.MockServer.{
  MockServer, plain, token_url, assertion_error, transient_status,
}
use vault_plugin_secrets_sal.Action.Views.{Goes, Goes-bind, Goes-lift, Goes-pure, Goes-raise}
use vault_plugin_secrets_sal.MockServer.Serving.{Serves}
use vault_plugin_secrets_sal.MockServer.Rounds.{
  repeat, after, next_token, once-transient, once-served, then_wait,
}

module _ (decimal : ℕ → String) (error_text : Error → String) where
  module _ (V : Platform) (server : V.World → MockServer) (cfg : Config) (form : Form)
      (S : Serves V server decimal error_text form) (client : HttpClient)
      (requestable : V.new_request (effective_token_url cfg) ≡ ok tt) where
    abbrev Ends : {A : Type 0} → MockServer → Action V A → Outcome A → MockServer → Type 0
    Ends = Goes server

    -- As many failures as there are rounds to follow, or fewer: the token comes.
    attempts-served :
        (left n attempt code : ℕ) (m : MockServer)
        → n ≤ left
        → token_url m ≡ effective_token_url cfg
        → m.transient_fails ≡ pos n
        → transient_status m.transient_code ≡ pos code
        → is_retryable_status code ≡ true
        → code ≤ 599
        → m.fail_mode ≡ ""
        → assertion_error form m.assertion_validator ≡ none
        → Ends m
            (token_attempts V client cfg form left attempt)
            (ok (next_token decimal error_text form m))
            (after (suc n) form 0 (suc m.mint_counter) m)
    unfolding token_attempts finish finish_or
    attempts-served zero zero attempt code m le there fails status retry below mode valid =
        Goes-bind server m _ _ _ _
          (once-served decimal error_text V server cfg form S client requestable m there fails mode
            valid)
          (Goes-pure server _ _)
    attempts-served zero (suc n) attempt code m le there fails status retry below mode valid =
        absurd (omega arith)
    attempts-served (suc left) zero attempt code m le there fails status retry below mode valid =
        Goes-bind server m _ _ _ _
          (once-served decimal error_text V server cfg form S client requestable m there fails mode
            valid)
          (Goes-pure server _ _)
    attempts-served (suc left) (suc n) attempt code m le there fails status retry below mode valid =
        let next = after 1 form n m.mint_counter m in
        Goes-bind server m _ _ next _
          (once-transient decimal error_text V server cfg form S client requestable m n code there
            fails status retry below)
          (then_wait decimal error_text V server cfg form S client requestable next _ attempt _ (
            rw (append_assoc m.requests (form ∷ []) (repeat (suc n) form)) at (
              attempts-served left n (suc attempt) code next (omega arith) there refl status retry
                below mode valid)))

    -- More failures than that: the last of them is the error.
    attempts-failed :
        (left n attempt code : ℕ) (m : MockServer)
        → left < n
        → token_url m ≡ effective_token_url cfg
        → m.transient_fails ≡ pos n
        → transient_status m.transient_code ≡ pos code
        → is_retryable_status code ≡ true
        → code ≤ 599
        → Ends m
            (token_attempts V client cfg form left attempt)
            (fail (parse_token_error V code (S.encode (plain "transient failure"))))
            (after (suc left) form (n - suc left) m.mint_counter m)
    unfolding token_attempts finish finish_or
    attempts-failed left zero attempt code m lt there fails status retry below =
        absurd (omega arith)
    attempts-failed zero (suc n) attempt code m lt there fails status retry below =
        let one_less : suc n - 1 ≡ n = omega arith in
        rw one_less (
          Goes-bind server m _ _ _ _
            (once-transient decimal error_text V server cfg form S client requestable m n code there
              fails status retry below)
            (Goes-raise server _ _))
    attempts-failed (suc left) (suc n) attempt code m lt there fails status retry below =
        let next = after 1 form n m.mint_counter m in
        let one_less : suc n - suc (suc left) ≡ n - suc left = omega arith in
        rw one_less (
          Goes-bind server m _ _ next _
            (once-transient decimal error_text V server cfg form S client requestable m n code there
              fails status retry below)
            (then_wait decimal error_text V server cfg form S client requestable next _ attempt _ (
              rw (append_assoc m.requests (form ∷ []) (repeat (suc left) form)) at (
                attempts-failed left n (suc attempt) code next (omega arith) there refl status retry
                  below))))

    parse_token_error-transient :
        (code : ℕ) (body : String)
        → is_retryable_status code ≡ true
        → is_transient_mint_error (parse_token_error V code body) ≡ true
    unfolding is_transient_mint_error as_salesforce_error parse_token_error
    parse_token_error-transient code body retry = elim (Outcome-cases (V.unmarshal_error body)) [
      | inl (a, e) ↦ rw (is_transient_mint_error, e) retry
      | inr (f, e) ↦ rw (is_transient_mint_error, e) retry
    ]

    -- A token request to an endpoint that fails some more times in a way that may pass is served if
    -- these are at most two, after one request for each of them and one more; and else it sends
    -- three, and fails in a way that may pass.
    pub do_token_request-retries :
        http_client_for V cfg ≡ ok client
        → (n code : ℕ) (s : State V) → token_url (server s.world) ≡ effective_token_url cfg
        → (server s.world).transient_fails ≡ pos n
        → transient_status (server s.world).transient_code ≡ pos code
        → is_retryable_status code ≡ true
        → code ≤ 599
        → (server s.world).fail_mode ≡ ""
        → assertion_error form (server s.world).assertion_validator ≡ none
        → let m = server s.world in
          let reply = do_token_request V cfg form s in
          ((n ≤ 2)
            × (reply.0 ≡ ok (next_token decimal error_text form m))
            × (server reply.1.world ≡ after (suc n) form 0 (suc m.mint_counter) m))
          ⊎ ((3 ≤ n)
              × ((e : Error) × (reply.0 ≡ fail e) × (is_transient_mint_error e ≡ true))
              × (server reply.1.world ≡ after 3 form (n - 3) m.mint_counter m))
    unfolding do_token_request
    do_token_request-retries settings n code s there fails status retry below mode valid =
        let m = server s.world in
        let start = Goes-lift server m (ok client) in
        elim (dec_lt 2 n) [
          | no few ↦
              let few_fails : n ≤ 2 = omega arith in
              let run = Goes-bind server m _ _ _ _ start (
                attempts-served 2 n 0 code m (omega arith) there fails status retry below mode
                  valid) in
              let (served, left) = run.at s refl in rw settings (inl (few_fails, served, left))
          | yes many ↦
              let run =
                Goes-bind server m _ _ _ _ start
                  (attempts-failed 2 n 0 code m many there fails status retry below) in
              let (failed, left) = run.at s refl in
              rw settings (inr (many, (_, failed, parse_token_error-transient code _ retry), left))
        ]
