-- ===== src/MockServer/Rounds.antt =====
-- One round of client.go `doTokenRequest` against the fake token endpoint, and the wait after it.
use Prim.Native.String.{count}
use text.Mathlib.TextLemmas.{length-append}
use vault_plugin_secrets_sal.Common.{
  ℕ, zero, suc, ◌≤◌, ◌≡◌, ◌≢◌, refl, ap, ◌∙◌, String, ◌<>◌, true, false, none, List, [], ◌∷◌, ◌++◌,
  num_eq, arith, ne→eq_false, on_nil,
}
use vault_plugin_secrets_sal.Common.Int.{pos}
use vault_plugin_secrets_sal.Errors.{Error, Outcome, ok}
use vault_plugin_secrets_sal.Config.{Config, effective_token_url}
use vault_plugin_secrets_sal.Token.{TokenResult}
use vault_plugin_secrets_sal.Platform.{Platform, HttpClient, received}
use vault_plugin_secrets_sal.Action.{Action, raise, call, ◌>>=◌}
use vault_plugin_secrets_sal.Client.{
  Form, got, refused, is_retryable_status, parse_token_error, read_response, read_result,
  do_token_request_once, back_off,
}
use vault_plugin_secrets_sal.MockServer.{
  MockServer, plain, token_body, token_url, admit, assertion_error, respond, mint, handle_token,
  response_of, transient_status, token_of, form_get,
}
use vault_plugin_secrets_sal.Action.Views.{Goes, Goes-any, Goes-bind, Goes-call, Goes-pure}
use vault_plugin_secrets_sal.MockServer.Serving.{values_of, form_of-values_of, Serves}

-- `k` times the form.
abbrev pub repeat : ℕ → Form → List Form
repeat zero form = []
repeat (suc k) form = form ∷ repeat k form

-- The server after `k` more requests of the form, with `f` failures left and `c` tokens given.
abbrev pub after : ℕ → Form → ℕ → ℕ → MockServer → MockServer
after k form f c m = record m {
  requests = m.requests ++ repeat k form;
  transient_fails = pos f;
  mint_counter = c;
}

pub minted-ne : (base n : String) → base <> "!mint" <> n ≢ ""
minted-ne base n h =
    let whole = length-append base ("!mint" <> n) in
    let back = length-append "!mint" n in
    let five : count "!mint" ≡ 5 = refl in let nothing = ap count h in absurd (omega arith)

module _ (decimal : ℕ → String) (error_text : Error → String) where
  -- The token that the server gives next.
  abbrev pub next_token : Form → MockServer → TokenResult
  next_token form m = record {
    access_token = token_of decimal error_text m (suc m.mint_counter);
    instance_url = m.instance_url;
    token_type = "Bearer";
    scope = form_get "scope" form;
    expires_in = pos 0;
  }

  -- A failure that is set comes before all else.
  pub handle_token-transient :
      (form : Form) (m : MockServer) (n code : ℕ)
      → m.transient_fails ≡ pos (suc n)
      → transient_status m.transient_code ≡ pos (suc code)
      → handle_token decimal error_text (ok (values_of form)) m ≡ (
        record { status = pos (suc code); body = plain "transient failure"; slept = pos 0 },
        after 1 form n m.mint_counter m,
      )
  unfolding handle_token admit respond
  handle_token-transient form m n code fails status =
      rw (form_of-values_of form, fails, status) refl

  pub handle_token-served :
      (form : Form) (m : MockServer)
      → m.transient_fails ≡ pos 0
      → m.fail_mode ≡ ""
      → assertion_error form m.assertion_validator ≡ none
      → let answer = handle_token decimal error_text (ok (values_of form)) m in
        let after_one = after 1 form 0 (suc m.mint_counter) m in
        (answer.0.status ≡ pos 200)
        × (answer.0.body ≡ token_body (response_of decimal error_text form after_one))
        × (answer.1 ≡ after_one)
  unfolding handle_token admit respond mint
  handle_token-served form m fails mode valid = (
    rw (form_of-values_of form, fails, mode, valid) refl,
    rw (form_of-values_of form, fails, mode, valid) refl,
    rw (form_of-values_of form, fails, mode, valid) refl,
  )

  module _ (V : Platform) (server : V.World → MockServer) (cfg : Config) (form : Form)
      (S : Serves V server decimal error_text form) (client : HttpClient)
      (requestable : V.new_request (effective_token_url cfg) ≡ ok tt) where
    abbrev Ends : {A : Type 0} → MockServer → Action V A → Outcome A → MockServer → Type 0
    Ends = Goes server

    -- The call of the network is a run of the handler.
    post-Ends :
        (m n : MockServer) (status : ℕ)
        → token_url m ≡ effective_token_url cfg
        → (handle_token decimal error_text (ok (values_of form)) m).0.status ≡ pos status
        → (handle_token decimal error_text (ok (values_of form)) m).1 ≡ n
        → 200 ≤ status
        → status ≤ 599
        → Ends m
            (call V (V.post client (record { url = effective_token_url cfg; form = form })))
            (ok (
              received status
                (S.encode (handle_token decimal error_text (ok (values_of form)) m).0.body)))
            n
    post-Ends m n status there same left final below = Goes-call server m _ _ n λ w here.
        let answer = S.answer-token client w {n = status} (rw here same) final below in
        let next = S.server-token client w in
        (rw (here, there) at answer, rw (here, there) at next ∙ left)

    retry-test :
        (code : ℕ) → is_retryable_status code ≡ true → (200 ≤ code) × (num_eq code 200 ≡ false)
    unfolding is_retryable_status
    retry-test code retry = (ground arith, ground arith)

    -- One request that meets a failure that is set.
    pub once-transient :
        (m : MockServer) (n code : ℕ)
        → token_url m ≡ effective_token_url cfg
        → m.transient_fails ≡ pos (suc n)
        → transient_status m.transient_code ≡ pos code
        → is_retryable_status code ≡ true
        → code ≤ 599
        → Ends m
            (do_token_request_once V client cfg form)
            (ok (refused true (parse_token_error V code (S.encode (plain "transient failure")))))
            (after 1 form n m.mint_counter m)
    unfolding do_token_request_once read_result read_response
    once-transient m n zero there fails status retry below =
        let (low, _) = retry-test 0 retry in absurd (omega arith)
    once-transient m n (suc code) there fails status retry below =
        let run = handle_token-transient form m n code fails status in
        let (final, differs) = retry-test (suc code) retry in
        rw requestable (
          Goes-bind server m _ _ (after 1 form n m.mint_counter m) _
            (post-Ends m _ (suc code) there (rw run refl) (rw run refl) final below)
            (rw (run, differs, retry) (Goes-pure server _ _)))

    -- One request that is served.
    pub once-served :
        (m : MockServer)
        → token_url m ≡ effective_token_url cfg
        → m.transient_fails ≡ pos 0
        → m.fail_mode ≡ ""
        → assertion_error form m.assertion_validator ≡ none
        → Ends m
            (do_token_request_once V client cfg form)
            (ok (got (next_token form m)))
            (after 1 form 0 (suc m.mint_counter) m)
    unfolding do_token_request_once read_result read_response
    once-served m there fails mode valid =
        let (fine, token, left) = handle_token-served form m fails mode valid in
        let named = ne→eq_false _ _ (minted-ne m.token_base (decimal (suc m.mint_counter))) in
        record {
          at = λ s here.
              let parsed =
                S.unmarshal-encode s.world
                  {r = response_of decimal error_text form (after 1 form 0 (suc m.mint_counter) m)}
                  (rw here token) in
              let run =
                Goes-bind server m _ _ _ _
                  (post-Ends m _ 200 there fine left (omega arith) (omega arith))
                  (rw (token, parsed, named) (Goes-pure server _ _)) in
              rw requestable (run.at s here);
        }

    wait-Ends : (m : MockServer) (attempt : ℕ) → Ends m (back_off V attempt) (ok none) m
    unfolding back_off
    wait-Ends m attempt = Goes-any server m _ _ m (S.server-rand_int63n _) λ jitter.
        Goes-call server m _ none m λ w here. (S.wait-none _ w, rw (S.server-wait _ w) here)

    -- A wait that is not cut short.
    pub then_wait :
        (m k : MockServer) (attempt : ℕ) (next : Action V TokenResult) {o : Outcome TokenResult}
        → Ends m next o k
        → Ends m (back_off V attempt >>= λ ended. on_nil ended next (λ stop. raise stop)) o k
    then_wait m k attempt next h = Goes-bind server m _ _ m k (wait-Ends m attempt) h
