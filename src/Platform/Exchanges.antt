-- ===== src/Platform/Exchanges.antt =====
-- What goes out over a network connection when the plugin calls `client.Do` (client.go): the client
-- has no CheckRedirect, so net/http follows redirects, and an answer 307 or 308 makes it post the
-- form again to where the answer points.
use vault_plugin_secrets_sal.Common.{ℕ, suc, ◌≤◌, ◌≡◌, List, ◌∷◌}
use vault_plugin_secrets_sal.Common.Int.{ℤ}
use vault_plugin_secrets_sal.Role.{Duration}
use vault_plugin_secrets_sal.Platform.{Platform, HttpClient, HttpRequest}

-- `Redirect r x`: an answer to the request `r` can make the client go on with the request `x`.
module _ (Redirect : HttpRequest → HttpRequest → Type 0) where
  -- The `n` requests of one `client.Do` of `r`, after those of the list (the latest request stands
  -- first): `r`, and each further one where an answer to the last one points.
  pub data Exchange (r : HttpRequest) (before : List HttpRequest)
      : ℕ → HttpRequest → List HttpRequest → Type 0 where
    posted : Exchange r before 1 r (r ∷ before)
    redirected :
        {n : ℕ} {x y : HttpRequest} {after : List HttpRequest}
        → Exchange r before n x after
        → Redirect x y
        → Exchange r before (suc n) y (y ∷ after)

  -- A request with the property, or one that redirects lead to from such a request.
  pub data LedFrom (Q : HttpRequest → Type 0) : HttpRequest → Type 0 where
    itself : {r : HttpRequest} → Q r → LedFrom Q r
    led_on : {x y : HttpRequest} → LedFrom Q x → Redirect x y → LedFrom Q y

-- A platform with a record of the requests that went out. Only a POST adds to it: one exchange, of
-- at most ten requests, after which net/http gives up.
pub record IsRecorded (V : Platform) (sent : V.World → List HttpRequest)
    (Redirect : HttpRequest → HttpRequest → Type 0) : Type 0 where
  pub sent-post :
      (c : HttpClient) (r : HttpRequest) (w : V.World)
      → (n : ℕ) × (last : HttpRequest) × (n ≤ 10)
        × Exchange Redirect r (sent w) n last (sent (V.post c r w).1)
  pub sent-context_error : (w : V.World) → sent (V.context_error w).1 ≡ sent w
  pub sent-rand_int63n : (n : ℤ) (w : V.World) → sent (V.rand_int63n n w).1 ≡ sent w
  pub sent-wait : (d : Duration) (w : V.World) → sent (V.wait d w).1 ≡ sent w
