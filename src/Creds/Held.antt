-- ===== src/Creds/Held.antt =====
-- Which token a request is given (path_creds.go `issueToken`): the one that is cached when it
-- returns; and one that is not said to come from the cache was minted for it.
use vault_plugin_secrets_sal.Common.{
  String, ◌≡◌, ◌∙◌, refl, ap, Bool, true, false, Option, none, some, on_nil, if◌then◌else◌,
}
use vault_plugin_secrets_sal.Errors.{Error, Outcome, ok, fail}
use vault_plugin_secrets_sal.Config.{Config}
use vault_plugin_secrets_sal.Role.{Role}
use vault_plugin_secrets_sal.Token.{CachedToken}
use vault_plugin_secrets_sal.Platform.{Platform}
use vault_plugin_secrets_sal.Platform.Laws.{IsLawful}
use vault_plugin_secrets_sal.Action.{Action, State}
use vault_plugin_secrets_sal.Action.Triples.{
  Triple, Any, Triple-Any, Triple-Keeps, Triple-pure, Triple-raise, Triple-if, Triple-attempt,
  Triple-bind,
}
use vault_plugin_secrets_sal.Storage.{get_cached_token}
use vault_plugin_secrets_sal.Storage.Reads.{get_cached_token-stored}
use vault_plugin_secrets_sal.Storage.Frames.{IsStable, Keeps-get_cached_token, Keeps-now, Keeps-log}
use vault_plugin_secrets_sal.Creds.{
  cached_token_of, mint_token, mint_and_cache, fresh_or_none, fresh_cached, unexpired_or_none,
  unexpired_cached, fail_closed, serve_or_fail, after_mint, issue_locked, then_unlock,
  issue_contended, issue_token,
}
use vault_plugin_secrets_sal.Creds.Afresh.{MintedFor}
use vault_plugin_secrets_sal.Creds.Minting.{
  Holds, Holds-IsStable, mint_and_cache-Holds, Triple-then_unlock,
}

module _ {V : Platform} (L : IsLawful V) (name : String) where
  -- The token that a lookup gave, if any, is the cached one.
  abbrev Found : Option CachedToken → State V → Type 0
  Found o s = (ct : CachedToken) → o ≡ some ct → Holds L name ct s

  Found-IsStable : (o : Option CachedToken) → IsStable L (λ j. ⊥) (Found o)
  Found-IsStable o = record {
    transfer = λ s t agree h ct e. (Holds-IsStable L name ct).transfer s t agree (h ct e);
  }

  get_cached_token-Found : Triple Any (get_cached_token V name) Found
  get_cached_token-Found = record {
    at = λ s p {a = o} got ct e.
        let stable = Holds-IsStable L name ct in
        (Keeps-get_cached_token L stable name).at s
          (get_cached_token-stored L name s got ∙ ap ok e);
  }

  -- A test may drop the token, and does not change it.
  Found-if :
      (b : Bool) (ct : CachedToken) (s : State V)
      → Found (some ct) s
      → Found (if b then some ct else none) s
  Found-if true ct s h = h
  Found-if false ct s h = λ t e. cc

  fresh_or_none-Found :
      (role : Role) (o : Option CachedToken) → Triple (Found o) (fresh_or_none V role o) Found
  unfolding fresh_or_none
  fresh_or_none-Found role none = Triple-pure none (λ s h. h)
  fresh_or_none-Found role (some ct) =
      Triple-bind _ _ (Triple-Keeps _ (Keeps-now L (Found-IsStable (some ct))))
        λ now. Triple-pure _ (Found-if _ ct)

  fresh_cached-Found : (role : Role) → Triple Any (fresh_cached V name role) Found
  unfolding fresh_cached
  fresh_cached-Found role = Triple-bind _ _ get_cached_token-Found (fresh_or_none-Found role)

  unexpired_or_none-Found :
      (r : Outcome (Option CachedToken))
      → Triple (λ s. (o : Option CachedToken) → r ≡ ok o → Found o s) (unexpired_or_none V r) Found
  unfolding unexpired_or_none
  unexpired_or_none-Found (fail e) = Triple-pure none (λ s h ct e. cc)
  unexpired_or_none-Found (ok none) = Triple-pure none (λ s h ct e. cc)
  unexpired_or_none-Found (ok (some ct)) =
      let stable : IsStable L (λ j. ⊥)
          (λ s. (o : Option CachedToken) → ok (some ct) ≡ ok o → Found o s) =
        record { transfer = λ s t agree h o e. (Found-IsStable o).transfer s t agree (h o e) } in
      Triple-bind _ _ (Triple-Keeps _ (Keeps-now L stable))
        λ now. Triple-pure _ (λ s h. Found-if _ ct s (h (some ct) refl))

  unexpired_cached-Found : Triple Any (unexpired_cached V name) Found
  unfolding unexpired_cached
  unexpired_cached-Found =
      Triple-bind _ _ (Triple-attempt _ get_cached_token-Found) unexpired_or_none-Found

  -- What follows a lookup.
  Triple-Found :
      {A : Type 0} {Q : A → State V → Type 0} (o : Option CachedToken) (m : Action V A)
      (f : CachedToken → Action V A)
      → Triple Any m Q
      → ((ct : CachedToken) → Triple (Holds L name ct) (f ct) Q)
      → Triple (Found o) (on_nil o m f) Q
  Triple-Found none m f tm tf = record { at = λ s h e. tm.at s tt e }
  Triple-Found (some ct) m f tm tf = record { at = λ s h e. (tf ct).at s (h ct refl) e }

  module _ (cfg : Config) (role : Role) where
    -- The token is the cached one, and one that is not said to come from the cache was minted for
    -- the role under the configuration.
    abbrev pub IsHeld : CachedToken × Bool → State V → Type 0
    IsHeld r s = Holds L name r.0 s × (r.1 ≡ false → MintedFor V cfg role r.0)

    from_cache : (ct : CachedToken) (s : State V) → Holds L name ct s → IsHeld (ct, true) s
    from_cache ct s h = (h, λ e. cc)

    mint_token-Answered :
        Triple Any
          (mint_token V cfg role)
          (λ res _. (s : State V) × ((mint_token V cfg role s).0 ≡ ok res))
    mint_token-Answered = record { at = λ s p h. (s, h) }

    mint_and_cache-Minted :
        Triple Any (mint_and_cache V name cfg role) (λ ct _. MintedFor V cfg role ct)
    unfolding mint_and_cache
    mint_and_cache-Minted = Triple-bind _ _ (Triple-Any _) λ now.
        Triple-bind _ _ mint_token-Answered λ res.
          let ct = cached_token_of now role res in
          let minted : (s : State V)
              → (u : State V) × ((mint_token V cfg role u).0 ≡ ok res)
              → MintedFor V cfg role ct =
            λ s (u, got). (now, res, u, got, refl) in
          Triple-bind _ _ (record { at = λ s p h. minted s p })
            λ _. Triple-bind _ _ (record { at = λ s p h. p }) λ _. Triple-pure ct (λ s p. p)

    mint_and_cache-IsHeld :
        Triple Any
          (mint_and_cache V name cfg role)
          (λ ct s. Holds L name ct s × MintedFor V cfg role ct)
    mint_and_cache-IsHeld = record {
      at = λ s p h.
          ((mint_and_cache-Holds L name cfg role).at s p h, mint_and_cache-Minted.at s p h);
    }

    fail_closed-IsHeld : (e : Error) → Triple Any (fail_closed V name e) IsHeld
    unfolding fail_closed
    fail_closed-IsHeld e =
        Triple-if _ _ _ (Triple-bind _ _ (Triple-Any _) (λ _. Triple-raise e)) (Triple-raise e)

    serve_or_fail-IsHeld :
        (e : Error) (o : Option CachedToken) → Triple (Found o) (serve_or_fail V name e o) IsHeld
    unfolding serve_or_fail
    serve_or_fail-IsHeld e none = record { at = λ s h. (fail_closed-IsHeld e).at s tt }
    serve_or_fail-IsHeld e (some ct) =
        Triple-if _ _ _
          (Triple-bind _ _ (Triple-Keeps _ (Keeps-log L (Found-IsStable (some ct)) _))
            λ _. Triple-pure (ct, true) (λ s h. from_cache ct s (h ct refl)))
          (record { at = λ s h. (fail_closed-IsHeld e).at s tt })

    after_mint-IsHeld :
        (r : Outcome CachedToken)
        → Triple
            (λ s. (ct : CachedToken) → r ≡ ok ct → Holds L name ct s × MintedFor V cfg role ct)
            (after_mint V name r)
            IsHeld
    unfolding after_mint
    after_mint-IsHeld (ok ct) =
        Triple-pure (ct, false) (λ s h. let (held, minted) = h ct refl in (held, λ e. minted))
    after_mint-IsHeld (fail e) = record {
      at = λ s h. (Triple-bind _ _ unexpired_cached-Found (serve_or_fail-IsHeld e)).at s tt;
    }

    issue_locked-IsHeld : Triple Any (issue_locked V name cfg role) IsHeld
    unfolding issue_locked
    issue_locked-IsHeld = Triple-bind _ _ (fresh_cached-Found role) λ hit.
        Triple-Found hit _ _
          (Triple-bind _ _ (Triple-attempt _ mint_and_cache-IsHeld) after_mint-IsHeld)
          (λ ct. Triple-pure (ct, true) (from_cache ct))

    unlocked-IsHeld : Triple Any (then_unlock V name (issue_locked V name cfg role)) IsHeld
    unlocked-IsHeld =
        Triple-then_unlock L name _
          (λ r. record {
            transfer = λ s t agree (held, minted).
                ((Holds-IsStable L name r.0).transfer s t agree held, minted);
          })
          issue_locked-IsHeld

    issue_contended-IsHeld : Triple Any (issue_contended V name cfg role) IsHeld
    unfolding issue_contended
    issue_contended-IsHeld = Triple-bind _ _ unexpired_cached-Found λ usable.
        Triple-Found usable _ _ (Triple-bind _ _ (Triple-Any _) λ _. unlocked-IsHeld)
          (λ ct. Triple-pure (ct, true) (from_cache ct))

    pub issue_token-IsHeld : Triple Any (issue_token V name cfg role) IsHeld
    unfolding issue_token
    issue_token-IsHeld = Triple-bind _ _ (fresh_cached-Found role) λ hit.
        Triple-Found hit _ _
          (Triple-bind _ _ (Triple-Any _)
            λ locked. Triple-if locked _ _ unlocked-IsHeld issue_contended-IsHeld)
          (λ ct. Triple-pure (ct, true) (from_cache ct))
