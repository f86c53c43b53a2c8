-- ===== src/Creds/Moves/Resume.antt =====
-- A request alone, as a function: from where it stands, the platform's answer says where it goes.
use vault_plugin_secrets_sal.Common.{
  String, ◌≡◌, ◌↔◌, refl, true, false, Option, none, some, if◌then◌else◌,
}
use vault_plugin_secrets_sal.Errors.{Error, Outcome, ok, fail, on_error}
use vault_plugin_secrets_sal.Config.{Config}
use vault_plugin_secrets_sal.Role.{Role}
use vault_plugin_secrets_sal.Token.{CachedToken, before, fresh}
use vault_plugin_secrets_sal.Platform.{Platform, LogLine, mint_failed_serving_cached}
use vault_plugin_secrets_sal.Action.{State, call}
use vault_plugin_secrets_sal.Storage.{get_cached_token, put_cached_token, delete_cached_token}
use vault_plugin_secrets_sal.Client.{is_transient_mint_error}
use vault_plugin_secrets_sal.Creds.{cached_token_of, mint_token, issue_token}
use vault_plugin_secrets_sal.Creds.Moves.{
  Issued, Pc, start, fast_check, at_lock, contended, contended_check, waiting, recheck,
  recheck_check, at_mint, minting, storing, stored, mint_failed, failed_check, degraded, purging,
  unlocking, done, Event, after_failure, Move,
}
use vault_plugin_secrets_sal.Creds.Moves.Simulation.{Steps, stop, next, Performs}
use vault_plugin_secrets_sal.Creds.Moves.Lookups.{Served}
use vault_plugin_secrets_sal.Creds.Moves.Sequential.{issue_token-Steps}

module _ (V : Platform) (name : String) (cfg : Config) (role : Role) where
  abbrev Next : Type 0
  Next = Option (Pc × State V)

  abbrev went : {A : Type 0} → Outcome A × State V → (Outcome A → Pc) → Next
  went (r, t) k = some (k r, t)

  -- A call that does not fail.
  abbrev called : {A : Type 0} → Outcome A × State V → (A → Pc) → Next
  called (ok a, t) k = some (k a, t)
  called (fail e, t) k = none

  abbrev looked : State V → Pc → (CachedToken → Pc) → (Error → Pc) → Next
  looked s miss hit error = went (get_cached_token V name s) (Served V name cfg role miss hit error)

  unfoldable resume : Pc → State V → Next
  resume start s = looked s at_lock fast_check (λ e. done (fail e))
  resume (fast_check ct) s =
      called (call V V.now s)
        (λ t. if fresh ct t role.renew_skew then done (ok (ct, true)) else at_lock)
  resume at_lock s = called (call V (V.try_lock name) s) (λ b. if b then recheck else contended)
  resume contended s = looked s waiting contended_check (λ e. waiting)
  resume (contended_check ct) s =
      called (call V V.now s)
        (λ t. if before t ct.expires_at then done (ok (ct, true)) else waiting)
  resume waiting s = called (call V (V.lock name) s) (λ u. recheck)
  resume recheck s = looked s at_mint recheck_check (λ e. unlocking (fail e))
  resume (recheck_check ct) s =
      called (call V V.now s)
        (λ t. if fresh ct t role.renew_skew then unlocking (ok (ct, true)) else at_mint)
  resume at_mint s = called (call V V.now s) minting
  resume (minting t) s =
      went (mint_token V cfg role s)
        (λ r. on_error r mint_failed (λ res. storing (cached_token_of t role res)))
  resume (storing ct) s =
      went (put_cached_token V name ct s) (λ r. on_error r mint_failed (λ u. stored ct))
  resume (stored ct) s =
      called (call V (V.log (LogLine.minted name role.grant_type ct.expires_at)) s)
        (λ u. unlocking (ok (ct, false)))
  resume (mint_failed e) s = looked s (after_failure e) (failed_check e) (λ f. after_failure e)
  resume (failed_check e ct) s = called (call V V.now s) (λ t.
      if before t ct.expires_at
      then (if is_transient_mint_error e then degraded e ct else purging e)
      else after_failure e)
  resume (degraded e ct) s =
      called (call V (V.log (mint_failed_serving_cached name e ct.expires_at)) s)
        (λ u. unlocking (ok (ct, true)))
  resume (purging e) s =
      went (delete_cached_token V name s)
        (λ r. on_error r (λ f. unlocking (fail f)) (λ u. unlocking (fail e)))
  resume (unlocking r) s = called (call V (V.unlock name) s) (λ u. done r)
  resume (done r) s = none

  -- A move with the platform's answer is the one that the function makes.
  Move-resume :
      {p p' : Pc} {e : Event} (s t : State V)
      → Move name role p e p'
      → Performs V name cfg role e s t
      → resume p s ≡ some (p', t)
  unfolding resume
  Move-resume s t Move.fast_error h = rw h refl
  Move-resume s t Move.fast_miss h = rw h refl
  Move-resume s t Move.fast_hit h = rw h refl
  Move-resume s t (Move.fast_fresh test) h = rw (h, test) refl
  Move-resume s t (Move.fast_stale test) h = rw (h, test) refl
  Move-resume s t Move.lock_free h = rw h refl
  Move-resume s t Move.lock_taken h = rw h refl
  Move-resume s t Move.contended_error h = rw h refl
  Move-resume s t Move.contended_miss h = rw h refl
  Move-resume s t Move.contended_hit h = rw h refl
  Move-resume s t (Move.contended_valid test) h = rw (h, test) refl
  Move-resume s t (Move.contended_expired test) h = rw (h, test) refl
  Move-resume s t Move.waited h = rw h refl
  Move-resume s t Move.recheck_error h = rw h refl
  Move-resume s t Move.recheck_miss h = rw h refl
  Move-resume s t Move.recheck_hit h = rw h refl
  Move-resume s t (Move.recheck_fresh test) h = rw (h, test) refl
  Move-resume s t (Move.recheck_stale test) h = rw (h, test) refl
  Move-resume s t (Move.failed_valid test kind) h = rw (h, test, kind) refl
  Move-resume s t (Move.failed_for_good test kind) h = rw (h, test, kind) refl
  Move-resume s t (Move.failed_expired test) h = rw (h, test) refl
  Move-resume s t mv h = rw h refl

  -- A request that is left alone comes to one end.
  Steps-unique :
      {q q' : Pc} {t t' : State V} {p : Pc} {s : State V}
      → resume q t ≡ none
      → resume q' t' ≡ none
      → Steps V name cfg role q t p s
      → Steps V name cfg role q' t' p s
      → (q ≡ q') × (t ≡ t')
  Steps-unique over over' stop stop = (refl, refl)
  Steps-unique over over' stop (next mv a rest) = let goes = Move-resume _ _ mv a in cc
  Steps-unique over over' (next mv a rest) stop = let goes = Move-resume _ _ mv a in cc
  Steps-unique over over' (next {p' = p} {s' = s} mv a rest)
        (next {p' = p'} {s' = s'} mv' a' rest') =
      let goes = Move-resume _ _ mv a in
      let goes' = Move-resume _ _ mv' a' in
      let same : p' ≡ p = cc in
      let same_state : s' ≡ s = cc in Steps-unique over over' rest (rw (same, same_state) at rest')

  -- A request that is left alone and comes to its end, move by move and with the platform's answers,
  -- has the outcome and the state of the sequential function, and it can come to that end.
  pub issue_token-Steps_iff :
      (s t : State V) (r : Issued)
      → Steps V name cfg role (done r) t start s ↔ (issue_token V name cfg role s ≡ (r, t))
  unfolding resume
  issue_token-Steps_iff s t r = (
    λ run.
        let (outcome, left) = Steps-unique refl refl (issue_token-Steps V name cfg role s) run in
        let same : (issue_token V name cfg role s).0 ≡ r = cc in rw (same, left) refl,
    λ e. rw e at (issue_token-Steps V name cfg role s),
  )
