-- ===== src/Client/Waits.antt =====
-- How long the client waits between its attempts (client.go `doTokenRequest`).
use vault_plugin_secrets_sal.Common.{
  ℕ, zero, suc, ◌+◌, ◌/◌, ◌≤◌, ◌<◌, ◌≡◌, true, false, Option, none, some, List, ◌∷◌, on_nil, arith,
}
use vault_plugin_secrets_sal.Common.Int.{ℤ, pos, +ℤ_of_pos}
use vault_plugin_secrets_sal.Errors.{Error}
use vault_plugin_secrets_sal.Config.{Config}
use vault_plugin_secrets_sal.Token.{TokenResult}
use vault_plugin_secrets_sal.Role.{Duration}
use vault_plugin_secrets_sal.Platform.{
  Platform, HttpClient, HttpRequest, HttpResult, not_sent, unreadable, received,
}
use vault_plugin_secrets_sal.Action.{Action, State, raise, call, ◌>>=◌}
use vault_plugin_secrets_sal.Action.Keeps.{
  Keeps, Keeps-bind, Keeps-option, Keeps-pure, Keeps-raise, Keeps-lift, keeps_rules,
}
use vault_plugin_secrets_sal.Action.Yields.{Yields-Keeps}
use vault_plugin_secrets_sal.Action.Ends.{Ends, Ends-Keeps, Ends-bind, Ends-then}
use vault_plugin_secrets_sal.Client.{
  Form, Attempt, got, refused, backoff, read_result, do_token_request_once, back_off, finish,
  finish_or, token_attempts, do_token_request,
}

-- The waits of a token request after those of the list, the latest one first: each is its backoff
-- and at most half of it more.
pub data Backoffs (before : List Duration) : ℕ → List Duration → Type 0 where
  no_wait : Backoffs before zero before
  one_wait :
      {k : ℕ} {after : List Duration} (d : ℕ)
      → backoff k ≤ d
      → d ≤ backoff k + backoff k / 2
      → Backoffs before k after
      → Backoffs before (suc k) (pos d ∷ after)

-- A platform with a record of the waits; a random number is below its bound.
pub record IsTimed (V : Platform) (waits : V.World → List Duration) : Type 0 where
  pub waits-wait : (d : Duration) (w : V.World) → waits (V.wait d w).1 ≡ d ∷ waits w
  pub waits-post :
      (c : HttpClient) (r : HttpRequest) (w : V.World) → waits (V.post c r w).1 ≡ waits w
  pub waits-context_error : (w : V.World) → waits (V.context_error w).1 ≡ waits w
  pub waits-rand_int63n : (n : ℤ) (w : V.World) → waits (V.rand_int63n n w).1 ≡ waits w
  pub rand_int63n-below :
      (n : ℕ) (w : V.World) → 0 < n → (j : ℕ) × ((V.rand_int63n (pos n) w).0 ≡ pos j) × (j < n)

module _ {V : Platform} {waits : V.World → List Duration} (T : IsTimed V waits)
    (before : List Duration) where
  abbrev Waited : ℕ → State V → Type 0
  Waited k s = Backoffs before k (waits s.world)

  abbrev AtMost : ℕ → State V → Type 0
  AtMost bound s = (k : ℕ) × (k ≤ bound) × Waited k s

  quiet :
      {A : Type 0} {k : ℕ} (f : V.World → A × V.World)
      → ((w : V.World) → waits (f w).1 ≡ waits w)
      → Keeps (Waited k) (call V f)
  unfolding call
  quiet f q = record { at = λ s h. rw (q s.world) h }

  Keeps-read_result : {k : ℕ} (r : HttpResult) → Keeps (Waited k) (read_result V r)
  unfolding read_result
  Keeps-read_result (not_sent e) =
      Keeps-bind _ _ (quiet _ T.waits-context_error)
        λ x. Keeps-option x _ _ (Keeps-pure _) (λ _. Keeps-pure _)
  Keeps-read_result (unreadable status e) = search keeps_rules
  Keeps-read_result (received status body) = search keeps_rules

  Keeps-do_token_request_once :
      {k : ℕ} (client : HttpClient) (cfg : Config) (form : Form)
      → Keeps (Waited k) (do_token_request_once V client cfg form)
  unfolding do_token_request_once
  Keeps-do_token_request_once {k} client cfg form =
      let post : (r : HttpRequest) → Keeps (Waited k) (call V (V.post client r)) =
        λ r. quiet _ (T.waits-post client r) in
      search (keeps_rules, post, Keeps-read_result)

  -- One wait more.
  back_off-Waited : (k : ℕ) → Ends (Waited k) (back_off V k) (Waited (suc k))
  unfolding back_off call ◌>>=◌
  back_off-Waited k = record {
    at = λ s h.
        let (j, drawn, below) = T.rand_int63n-below (backoff k / 2 + 1) s.world (omega arith) in
        rw (drawn, +ℤ_of_pos (backoff k) j, T.waits-wait, T.waits-rand_int63n)
          (one_wait (backoff k + j) (omega arith) (omega arith) h);
  }

  within : {k bound : ℕ} → k ≤ bound → (s : State V) → Waited k s → AtMost bound s
  within {k} below s h = (k, below, h)

  Ends-raise :
      {A : Type 0} {k bound : ℕ}
      → k ≤ bound
      → (e : Error) → Ends {A = A} (Waited k) (raise e) (AtMost bound)
  Ends-raise below e = Ends-Keeps (within below) _ (Keeps-raise e)

  Ends-finish :
      {k bound : ℕ} → k ≤ bound → (o : Attempt) → Ends (Waited k) (finish V o) (AtMost bound)
  unfolding finish
  Ends-finish below (got res) = Ends-Keeps (within below) _ (Keeps-pure res)
  Ends-finish below (refused b e) = Ends-raise below e

  Ends-finish_or :
      {k bound : ℕ}
      → k ≤ bound
      → (next : Action V TokenResult) (o : Attempt) → Ends (Waited k) next (AtMost bound)
      → Ends (Waited k) (finish_or V next o) (AtMost bound)
  unfolding finish_or
  Ends-finish_or below next (got res) h = Ends-Keeps (within below) _ (Keeps-pure res)
  Ends-finish_or below next (refused false e) h = Ends-raise below e
  Ends-finish_or below next (refused true e) h = h

  Ends-stop :
      {A : Type 0} {k bound : ℕ}
      → k ≤ bound
      → (stop : Option Error) (again : Action V A) → Ends (Waited k) again (AtMost bound)
      → Ends (Waited k) (on_nil stop again (λ e. raise e)) (AtMost bound)
  Ends-stop below none again h = h
  Ends-stop below (some e) again h = Ends-raise below e

  Ends-token_attempts :
      (client : HttpClient) (cfg : Config) (form : Form) (left attempt bound : ℕ)
      → attempt + left ≤ bound
      → Ends (Waited attempt) (token_attempts V client cfg form left attempt) (AtMost bound)
  unfolding token_attempts
  Ends-token_attempts client cfg form zero attempt bound below =
      Ends-bind (within (omega arith)) _ _
        (Yields-Keeps _ (Keeps-do_token_request_once client cfg form))
        λ o _. Ends-finish (omega arith) o
  Ends-token_attempts client cfg form (suc left) attempt bound below =
      let again = Ends-token_attempts client cfg form left (suc attempt) bound (omega arith) in
      Ends-bind (within (omega arith)) _ _
        (Yields-Keeps _ (Keeps-do_token_request_once client cfg form))
        λ o _. Ends-finish_or (omega arith) _ o (
          Ends-then (within (omega arith)) _ _ (back_off-Waited attempt)
            λ stop. Ends-stop (omega arith) stop _ again)

  Ends-do_token_request :
      (cfg : Config) (form : Form) → Ends (Waited 0) (do_token_request V cfg form) (AtMost 2)
  unfolding do_token_request
  Ends-do_token_request cfg form =
      Ends-bind (within (omega arith)) _ _ (Yields-Keeps _ (Keeps-lift _))
        λ client _. Ends-token_attempts client cfg form 2 0 2 (omega arith)

-- What was waited after the list, the latest wait first: nothing, 200 ms to 300 ms, or that and then
-- 400 ms to 600 ms. The times are in nanoseconds.
pub data AtMostTwoWaits (before : List Duration) : List Duration → Type 0 where
  unwaited : AtMostTwoWaits before before
  waited_once : (d : ℕ) → 200_000_000 ≤ d → d ≤ 300_000_000 → AtMostTwoWaits before (pos d ∷ before)
  waited_twice :
      (d e : ℕ)
      → 200_000_000 ≤ d
      → d ≤ 300_000_000
      → 400_000_000 ≤ e
      → e ≤ 600_000_000
      → AtMostTwoWaits before (pos e ∷ pos d ∷ before)

-- The waits of the loop are these.
Backoffs-AtMostTwoWaits :
    {before after : List Duration} (k : ℕ)
    → k ≤ 2
    → Backoffs before k after
    → AtMostTwoWaits before after
unfolding backoff
Backoffs-AtMostTwoWaits k below no_wait = unwaited
Backoffs-AtMostTwoWaits k below (one_wait d low high no_wait) = waited_once d low high
Backoffs-AtMostTwoWaits k below (one_wait e low high (one_wait d least most no_wait)) =
    waited_twice d e least most low high
Backoffs-AtMostTwoWaits k below (one_wait e low high (one_wait d least most (one_wait c l m w))) =
    absurd (omega arith)

-- Whatever the network answers, one token request waits at most twice: first 200 ms and at most
-- 100 ms more, then 400 ms and at most 200 ms more.
pub do_token_request-AtMostTwoWaits :
    {V : Platform} {waits : V.World → List Duration}
    → IsTimed V waits
    → (cfg : Config) (form : Form) (s : State V)
    → AtMostTwoWaits (waits s.world) (waits (do_token_request V cfg form s).1.world)
do_token_request-AtMostTwoWaits {waits = waits} T cfg form s =
    let (k, below, h) = (Ends-do_token_request T (waits s.world) cfg form).at s no_wait in
    Backoffs-AtMostTwoWaits k below h
