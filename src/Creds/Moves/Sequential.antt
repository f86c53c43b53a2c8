-- ===== src/Creds/Moves/Sequential.antt =====
-- The sequential `issue_token` takes the moves of a request, with the platform's answers.
use vault_plugin_secrets_sal.Common.{
  String, refl, Bool, true, false, Option, none, some, on_nil, if◌then◌else◌, Bool-cases, inl, inr,
}
use vault_plugin_secrets_sal.Errors.{Outcome, ok, fail}
use vault_plugin_secrets_sal.Config.{Config}
use vault_plugin_secrets_sal.Role.{Role}
use vault_plugin_secrets_sal.Token.{Time, CachedToken, before, fresh}
use vault_plugin_secrets_sal.Platform.{Platform}
use vault_plugin_secrets_sal.Action.{Action, State, call}
use vault_plugin_secrets_sal.Creds.{issue_locked, then_unlock, issue_contended, issue_token}
use vault_plugin_secrets_sal.Creds.Moves.{
  Pc, start, fast_check, at_lock, contended, contended_check, waiting, recheck, recheck_check,
  at_mint, unlocking, done, loaded, read_clock, tried_lock, took_lock, released, Move,
}
use vault_plugin_secrets_sal.Creds.Moves.Simulation.{
  Steps, Sim, Sim-call, Sim-pure, Sim-lift, Sim-bind, Sim-option, Sim-if, Sim-attempt,
}
use vault_plugin_secrets_sal.Creds.Moves.Lookups.{Served, fresh_cached-Sim, unexpired_cached-Sim}
use vault_plugin_secrets_sal.Creds.Moves.Minting.{after_minting, mint_and_cache-Sim, after_mint-Sim}

module _ (V : Platform) (name : String) (cfg : Config) (role : Role) where
  abbrev Runs : {A : Type 0} → Pc → Action V A → (Outcome A → Pc) → Type 0
  Runs = Sim V name cfg role

  -- `fresh`, asked on the fast path and under the lock.
  recheck-moves :
      (r : Outcome (Option CachedToken))
      → Move name role recheck
          (loaded r)
          (Served V name cfg role at_mint recheck_check (λ e. unlocking (fail e)) r)
  recheck-moves (fail e) = Move.recheck_error
  recheck-moves (ok none) = Move.recheck_miss
  recheck-moves (ok (some ct)) = Move.recheck_hit

  recheck_check-moves :
      (ct : CachedToken) (t : Time)
      → Move name role
          (recheck_check ct)
          (read_clock t)
          (if fresh ct t role.renew_skew then unlocking (ok (ct, true)) else at_mint)
  recheck_check-moves ct t = elim (Bool-cases (fresh ct t role.renew_skew)) [
    | inl yes_fresh ↦ rw yes_fresh (Move.recheck_fresh yes_fresh)
    | inr stale ↦ rw stale (Move.recheck_stale stale)
  ]

  issue_locked-Sim : Runs recheck (issue_locked V name cfg role) unlocking
  unfolding issue_locked
  issue_locked-Sim =
      Sim-bind V name cfg role _ _ (λ o. on_nil o at_mint (λ ct. unlocking (ok (ct, true))))
        (fresh_cached-Sim V name cfg role recheck at_mint recheck_check
          (λ ct. unlocking (ok (ct, true))) (λ e. unlocking (fail e)) recheck-moves
          recheck_check-moves)
        λ hit.
          Sim-option V name cfg role hit _ _ at_mint (λ ct. unlocking (ok (ct, true)))
            (Sim-bind V name cfg role _ _ (after_minting V name cfg role)
              (Sim-attempt V name cfg role _ (mint_and_cache-Sim V name cfg role))
              (after_mint-Sim V name cfg role))
            (λ ct. Sim-pure V name cfg role (ct, true))

  then_unlock-Sim :
      (p : Pc) (m : Action V (CachedToken × Bool))
      → Runs p m unlocking
      → Runs p (then_unlock V name m) done
  unfolding then_unlock call
  then_unlock-Sim p m h =
      Sim-bind V name cfg role _ _ unlocking (Sim-attempt V name cfg role m h) λ r.
        Sim-bind V name cfg role _ _ (λ _. done r)
          (Sim-call V name cfg role (V.unlock name) (λ _. released) (λ s. refl)
            (λ _. Move.unlocked))
          (λ _. Sim-lift V name cfg role r)

  contended-moves :
      (r : Outcome (Option CachedToken))
      → Move name role contended
          (loaded r)
          (Served V name cfg role waiting contended_check (λ _. waiting) r)
  contended-moves (fail e) = Move.contended_error
  contended-moves (ok none) = Move.contended_miss
  contended-moves (ok (some ct)) = Move.contended_hit

  contended_check-moves :
      (ct : CachedToken) (t : Time)
      → Move name role
          (contended_check ct)
          (read_clock t)
          (if before t ct.expires_at then done (ok (ct, true)) else waiting)
  contended_check-moves ct t = elim (Bool-cases (before t ct.expires_at)) [
    | inl valid ↦ rw valid (Move.contended_valid valid)
    | inr late ↦ rw late (Move.contended_expired late)
  ]

  issue_contended-Sim : Runs contended (issue_contended V name cfg role) done
  unfolding issue_contended call
  issue_contended-Sim =
      Sim-bind V name cfg role _ _ (λ o. on_nil o waiting (λ ct. done (ok (ct, true))))
        (unexpired_cached-Sim V name cfg role contended waiting contended_check
          (λ ct. done (ok (ct, true))) (λ e. done (fail e)) contended-moves contended_check-moves)
        λ usable.
          Sim-option V name cfg role usable _ _ waiting (λ ct. done (ok (ct, true)))
            (Sim-bind V name cfg role _ _ (λ _. recheck)
              (Sim-call V name cfg role (V.lock name) (λ _. took_lock) (λ s. refl)
                (λ _. Move.waited))
              (λ _. then_unlock-Sim recheck _ issue_locked-Sim))
            (λ ct. Sim-pure V name cfg role (ct, true))

  start-moves :
      (r : Outcome (Option CachedToken))
      → Move name role start
          (loaded r)
          (Served V name cfg role at_lock fast_check (λ e. done (fail e)) r)
  start-moves (fail e) = Move.fast_error
  start-moves (ok none) = Move.fast_miss
  start-moves (ok (some ct)) = Move.fast_hit

  fast_check-moves :
      (ct : CachedToken) (t : Time)
      → Move name role
          (fast_check ct)
          (read_clock t)
          (if fresh ct t role.renew_skew then done (ok (ct, true)) else at_lock)
  fast_check-moves ct t = elim (Bool-cases (fresh ct t role.renew_skew)) [
    | inl yes_fresh ↦ rw yes_fresh (Move.fast_fresh yes_fresh)
    | inr stale ↦ rw stale (Move.fast_stale stale)
  ]

  at_lock-moves :
      (b : Bool) → Move name role at_lock (tried_lock b) (if b then recheck else contended)
  at_lock-moves true = Move.lock_free
  at_lock-moves false = Move.lock_taken

  issue_token-Sim : Runs start (issue_token V name cfg role) done
  unfolding issue_token call
  issue_token-Sim =
      Sim-bind V name cfg role _ _ (λ o. on_nil o at_lock (λ ct. done (ok (ct, true))))
        (fresh_cached-Sim V name cfg role start at_lock fast_check (λ ct. done (ok (ct, true)))
          (λ e. done (fail e)) start-moves fast_check-moves)
        λ hit.
          Sim-option V name cfg role hit _ _ at_lock (λ ct. done (ok (ct, true)))
            (Sim-bind V name cfg role _ _ (λ b. if b then recheck else contended)
              (Sim-call V name cfg role (V.try_lock name) tried_lock (λ s. refl) at_lock-moves)
              λ locked.
                Sim-if V name cfg role locked _ _ recheck contended
                  (then_unlock-Sim recheck _ issue_locked-Sim) issue_contended-Sim)
            (λ ct. Sim-pure V name cfg role (ct, true))

  -- A request that is left alone goes, move by move and with the platform's answers, from the start
  -- to the outcome and the state of the sequential function.
  pub issue_token-Steps :
      (s : State V)
      → Steps V name cfg role
          (done (issue_token V name cfg role s).0)
          (issue_token V name cfg role s).1
          start
          s
  issue_token-Steps s = issue_token-Sim.at s
