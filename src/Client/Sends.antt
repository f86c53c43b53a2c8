-- ===== src/Client/Sends.antt =====
-- How many exchanges the client (client.go `doTokenRequest`) makes, and where: the loop is bounded
-- and every round begins with one form to the configured token endpoint.
use mathlib.Core.Path.{subst}
use vault_plugin_secrets_sal.Common.{
  ℕ, zero, suc, ◌+◌, ◌≤◌, ◌≡◌, refl, true, false, Option, none, some, List, on_nil, arith, inl, inr,
}
use vault_plugin_secrets_sal.Errors.{Error, Outcome, ok, fail, Outcome-cases}
use vault_plugin_secrets_sal.Config.{Config, effective_token_url}
use vault_plugin_secrets_sal.Token.{TokenResult}
use vault_plugin_secrets_sal.Platform.{
  Platform, HttpClient, HttpRequest, HttpResult, not_sent, unreadable, received,
}
use vault_plugin_secrets_sal.Platform.Exchanges.{Exchange, IsRecorded}
use vault_plugin_secrets_sal.Action.{Action, State, pure, raise, lift, call, continue, ◌>>=◌}
use vault_plugin_secrets_sal.Client.{
  Form, Attempt, got, refused, read_result, do_token_request_once, back_off, finish, finish_or,
  token_attempts, do_token_request,
}

-- `n` exchanges were made after the requests of the first list, of at most ten requests each; each
-- of them begins with `r`.
pub data Sent (Redirect : HttpRequest → HttpRequest → Type 0) (r : HttpRequest)
    (before : List HttpRequest) : ℕ → List HttpRequest → Type 0 where
  nothing : Sent Redirect r before zero before
  one_more :
      {n k : ℕ} {last : HttpRequest} {mid after : List HttpRequest}
      → Sent Redirect r before n mid
      → k ≤ 10
      → Exchange Redirect r mid k last after
      → Sent Redirect r before (suc n) after

Sent-trans :
    {Redirect : HttpRequest → HttpRequest → Type 0} {r : HttpRequest} {l m k : List HttpRequest}
    {a b : ℕ}
    → Sent Redirect r l a m
    → Sent Redirect r m b k
    → Sent Redirect r l (b + a) k
Sent-trans {Redirect = F} {r = r} {l = l} {m = m} {a = a} p nothing =
    subst (λ n. Sent F r l n m) (omega arith) p
Sent-trans {Redirect = F} {r = r} {l = l} {k = k} {a = a} p (one_more {n = n} q few e) =
    let longer = one_more (Sent-trans p q) few e in subst (λ i. Sent F r l i k) (omega arith) longer

module _ {V : Platform} {sent : V.World → List HttpRequest}
    {Redirect : HttpRequest → HttpRequest → Type 0} (R : IsRecorded V sent Redirect)
    (r : HttpRequest) where
  -- `m` makes at most `n` exchanges, all of them of `r`.
  pub record Sends {A : Type 0} (n : ℕ) (m : Action V A) : Type 0 where
    pub at :
        (s : State V) → (k : ℕ) × (k ≤ n) × Sent Redirect r (sent s.world) k (sent (m s).1.world)

  -- What keeps the record sends nothing.
  Sends-none :
      {A : Type 0} (n : ℕ) (m : Action V A)
      → ((s : State V) → sent (m s).1.world ≡ sent s.world)
      → Sends n m
  Sends-none n m h = record { at = λ s. (0, omega arith, rw (h s) nothing) }

  Sends-weaken : {A : Type 0} {a b : ℕ} (m : Action V A) → a ≤ b → Sends a m → Sends b m
  Sends-weaken m h k = record { at = λ s. let (n, below, p) = k.at s in (n, omega arith, p) }

  module _ {A : Type 0} where
    pub Sends-pure : (n : ℕ) (a : A) → Sends n (pure a)
    unfolding pure
    Sends-pure n a = Sends-none n _ (λ s. refl)

    Sends-raise : (n : ℕ) (e : Error) → Sends {A = A} n (raise e)
    unfolding raise
    Sends-raise n e = Sends-none n _ (λ s. refl)

    pub Sends-lift : (n : ℕ) (o : Outcome A) → Sends n (lift o)
    unfolding lift
    Sends-lift n o = Sends-none n _ (λ s. refl)

    Sends-continue :
        {B : Type 0} (n : ℕ) (o : Outcome B) (f : B → Action V A) (s : State V)
        → ((b : B) → Sends n (f b))
        → (k : ℕ) × (k ≤ n) × Sent Redirect r (sent s.world) k (sent (continue o f s).1.world)
    Sends-continue n (ok b) f s h = (h b).at s
    Sends-continue n (fail e) f s h = (0, omega arith, nothing)

    pub Sends-bind :
        {B : Type 0} (a b : ℕ) (m : Action V B) (f : B → Action V A)
        → Sends a m
        → ((x : B) → Sends b (f x))
        → Sends (a + b) (m >>= f)
    unfolding ◌>>=◌
    Sends-bind a b m f hm hf = record {
      at = λ s.
          let (k, below, first) = hm.at s in
          let (j, under, later) = Sends-continue b (m s).0 f (m s).1 hf in
          (j + k, omega arith, Sent-trans first later);
    }

  Sends-option :
      {A X : Type 0} (n : ℕ) (o : Option X) (m : Action V A) (f : X → Action V A)
      → Sends n m
      → ((x : X) → Sends n (f x))
      → Sends n (on_nil o m f)
  Sends-option n none m f hm hf = hm
  Sends-option n (some x) m f hm hf = hf x

  Sends-context_error : Sends 0 (call V V.context_error)
  unfolding call
  Sends-context_error = Sends-none 0 _ (λ s. R.sent-context_error s.world)

  Sends-read_result : (x : HttpResult) → Sends 0 (read_result V x)
  unfolding read_result
  Sends-read_result (not_sent e) =
      Sends-bind 0 0 _ _ Sends-context_error
        λ ended. Sends-option 0 ended _ _ (Sends-pure 0 _) (λ _. Sends-pure 0 _)
  Sends-read_result (unreadable status e) = Sends-pure 0 _
  Sends-read_result (received status body) = Sends-pure 0 _

  pub Sends-post : (client : HttpClient) → Sends 1 (call V (V.post client r))
  unfolding call
  Sends-post client = record {
    at = λ s.
        let (n, last, few, e) = R.sent-post client r s.world in
        (1, omega arith, one_more nothing few e);
  }

  Sends-back_off : (attempt : ℕ) → Sends 0 (back_off V attempt)
  unfolding back_off call
  Sends-back_off attempt =
      Sends-bind 0 0 _ _ (Sends-none 0 _ (λ s. R.sent-rand_int63n _ s.world))
        λ jitter. Sends-none 0 _ (λ s. R.sent-wait _ s.world)

module _ {V : Platform} {sent : V.World → List HttpRequest}
    {Redirect : HttpRequest → HttpRequest → Type 0} (R : IsRecorded V sent Redirect) (cfg : Config)
    (form : Form) where
  -- The one request that an exchange may begin with.
  abbrev request : HttpRequest
  request = record { url = effective_token_url cfg; form = form }

  Sends-once : (client : HttpClient) → Sends R request 1 (do_token_request_once V client cfg form)
  unfolding do_token_request_once
  Sends-once client = elim (Outcome-cases (V.new_request (effective_token_url cfg))) [
    | inl (u, e) ↦
        rw e
          (Sends-bind R request 1 0 _ _ (Sends-post R request client) (Sends-read_result R request))
    | inr (f, e) ↦ rw e (Sends-pure R request 1 _)
  ]

  Sends-finish : (x : Attempt) → Sends R request 0 (finish V x)
  unfolding finish
  Sends-finish (got res) = Sends-pure R request 0 res
  Sends-finish (refused b e) = Sends-raise R request 0 e

  Sends-finish_or :
      (n : ℕ) (next : Action V TokenResult) (x : Attempt)
      → Sends R request n next
      → Sends R request n (finish_or V next x)
  unfolding finish_or
  Sends-finish_or n next (got res) h = Sends-pure R request n res
  Sends-finish_or n next (refused false e) h = Sends-raise R request n e
  Sends-finish_or n next (refused true e) h = h

  Sends-token_attempts :
      (client : HttpClient) (left attempt : ℕ)
      → Sends R request (suc left) (token_attempts V client cfg form left attempt)
  unfolding token_attempts
  Sends-token_attempts client zero attempt =
      Sends-bind R request 1 0 _ _ (Sends-once client) Sends-finish
  Sends-token_attempts client (suc left) attempt = Sends-weaken R request _ (omega arith) (
      Sends-bind R request 1 (suc left) _ _ (Sends-once client) λ outcome.
        Sends-finish_or (suc left) _ outcome (
          Sends-weaken R request _ (omega arith) (
            Sends-bind R request 0 (suc left) _ _ (Sends-back_off R request attempt) λ ended.
              Sends-option R request (suc left) ended _ _
                (Sends-token_attempts client left (suc attempt))
                (λ stop. Sends-raise R request (suc left) stop))))

  Sends-do_token_request : Sends R request 3 (do_token_request V cfg form)
  unfolding do_token_request
  Sends-do_token_request =
      Sends-bind R request 0 3 _ _ (Sends-lift R request 0 _)
        (λ client. Sends-token_attempts client 2 0)

  -- Whatever the network answers, one token request makes at most three exchanges, of at most ten
  -- requests each: each exchange begins with the given form to the effective token endpoint of the
  -- configuration, and goes on only to where an answer redirects it.
  pub do_token_request-Sent :
      (s : State V)
      → (k : ℕ) × (k ≤ 3)
        × Sent Redirect
            (record { url = effective_token_url cfg; form = form })
            (sent s.world)
            k
            (sent (do_token_request V cfg form s).1.world)
  do_token_request-Sent s = Sends-do_token_request.at s
