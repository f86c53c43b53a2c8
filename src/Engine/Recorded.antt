-- ===== src/Engine/Recorded.antt =====
-- A record of what is sent, and the calls that add to it.
use vault_plugin_secrets_sal.Common.{ℕ, String, ◌≡◌, List, ◌∷◌}
use vault_plugin_secrets_sal.Platform.{Platform, HttpRequest, LogLine}
use vault_plugin_secrets_sal.Action.{State, call, try_call}
use vault_plugin_secrets_sal.Action.Keeps.{Keeps, Keeps-bind-lift}
use vault_plugin_secrets_sal.Storage.{put_cached_token, delete_cached_token}
use vault_plugin_secrets_sal.Token.{CachedToken}
use vault_plugin_secrets_sal.Jwt.{store_key}
use vault_plugin_secrets_sal.Platform.Exchanges.{
  Exchange, posted, redirected, LedFrom, itself, led_on, IsRecorded,
}
use vault_plugin_secrets_sal.Client.Targets.{Calls}

-- The later list has the earlier one, and after it (the latest request stands first) only requests
-- with the property.
pub data Adds (Q : HttpRequest → Type 0) (before : List HttpRequest)
    : List HttpRequest → Type 0 where
  none_added : Adds Q before before
  one_added :
      {after : List HttpRequest} (r : HttpRequest)
      → Q r
      → Adds Q before after
      → Adds Q before (r ∷ after)

-- The other calls of the platform do not add to the record of what was sent. Waiting for a lock is
-- not among them.
pub record IsSilent (V : Platform) (sent : V.World → List HttpRequest)
    (Redirect : HttpRequest → HttpRequest → Type 0) : Type 0 where
  pub recorded : IsRecorded V sent Redirect
  pub sent-now : (w : V.World) → sent (V.now w).1 ≡ sent w
  pub sent-try_lock : (k : String) (w : V.World) → sent (V.try_lock k w).1 ≡ sent w
  pub sent-unlock : (k : String) (w : V.World) → sent (V.unlock k w).1 ≡ sent w
  pub sent-log : (l : LogLine) (w : V.World) → sent (V.log l w).1 ≡ sent w
  pub sent-get : (k : String) (w : V.World) → sent (V.storage_get k w).1 ≡ sent w
  pub sent-put : (k : String) (e : V.Entry) (w : V.World) → sent (V.storage_put k e w).1 ≡ sent w
  pub sent-delete : (k : String) (w : V.World) → sent (V.storage_delete k w).1 ≡ sent w

-- An exchange that begins with such a request adds it, and what redirects lead to from it.
Adds-Exchange :
    {Redirect : HttpRequest → HttpRequest → Type 0} {Q : HttpRequest → Type 0} {r : HttpRequest}
    {before mid : List HttpRequest} {n : ℕ} {x : HttpRequest} {after : List HttpRequest}
    → Q r
    → Adds (LedFrom Redirect Q) before mid
    → Exchange Redirect r mid n x after
    → LedFrom Redirect Q x × Adds (LedFrom Redirect Q) before after
Adds-Exchange {r = r} q h posted = (itself q, one_added r (itself q) h)
Adds-Exchange q h (redirected {y = y} e on) =
    let (led, added) = Adds-Exchange q h e in
    let further = led_on led on in (further, one_added y further added)

module _ {V : Platform} {sent : V.World → List HttpRequest}
    {Redirect : HttpRequest → HttpRequest → Type 0} (R : IsSilent V sent Redirect)
    (before : List HttpRequest) (Q : HttpRequest → Type 0) where
  -- Since the list, only requests with the property were sent, and what redirects lead to from
  -- them.
  abbrev pub SendsOnly : State V → Type 0
  SendsOnly s = Adds (LedFrom Redirect Q) before (sent s.world)

  silent_call :
      {A : Type 0} (f : V.World → A × V.World)
      → ((w : V.World) → sent (f w).1 ≡ sent w)
      → Keeps SendsOnly (call V f)
  unfolding call
  silent_call f quiet = record { at = λ s h. rw (quiet s.world) h }

  silent_try :
      {A : Type 0} (f : V.World → _ × V.World)
      → ((w : V.World) → sent (f w).1 ≡ sent w)
      → Keeps {A = A} SendsOnly (try_call V f)
  unfolding try_call
  silent_try f quiet = record { at = λ s h. rw (quiet s.world) h }

  pub recorded_calls : Calls V SendsOnly Q
  unfolding store_key call
  recorded_calls = record {
    now = silent_call _ R.sent-now;
    context_error = silent_call _ R.recorded.sent-context_error;
    rand_int63n = λ n. silent_call _ (R.recorded.sent-rand_int63n n);
    wait = λ d. silent_call _ (R.recorded.sent-wait d);
    try_lock = λ k. silent_call _ (R.sent-try_lock k);
    unlock = λ k. silent_call _ (R.sent-unlock k);
    log = λ l. silent_call _ (R.sent-log l);
    get = λ k. silent_try _ (R.sent-get k);
    store = λ pem key. record { at = λ s h. h };
    post = λ client r allowed. record {
      at = λ s h.
          let (n, last, few, e) = R.recorded.sent-post client r s.world in
          (Adds-Exchange allowed h e).1;
    };
  }

  pub silent_put : (name : String) (ct : CachedToken) → Keeps SendsOnly (put_cached_token V name ct)
  unfolding put_cached_token
  silent_put name ct = Keeps-bind-lift _ _ λ e _. silent_try _ (R.sent-put _ e)

  pub silent_drop : (name : String) → Keeps SendsOnly (delete_cached_token V name)
  unfolding delete_cached_token
  silent_drop name = silent_try _ (R.sent-delete _)
