-- ===== src/Burst/Progress.antt =====
-- Some request of a burst can always move, unless another request holds the lock.
use native.Mathlib.Decide.{dec_lt}
use vault_plugin_secrets_sal.Common.{
  ℕ, ◌≤◌, ◌<◌, ◌≡◌, ◌≢◌, refl, ◌∙◌, ◌⊎◌, String, Bool, true, false, Option, none, some, Bool-cases,
  inl, inr, arith,
}
use vault_plugin_secrets_sal.Errors.{Error, external, ok}
use vault_plugin_secrets_sal.Client.{is_transient_mint_error}
use vault_plugin_secrets_sal.Role.{Role}
use vault_plugin_secrets_sal.Token.{Time, CachedToken, before, fresh}
use vault_plugin_secrets_sal.Creds.Moves.{
  Issued, Pc, start, fast_check, at_lock, contended, contended_check, waiting, recheck,
  recheck_check, at_mint, minting, storing, stored, mint_failed, failed_check, degraded, purging,
  unlocking, done, Event, Move,
}
use vault_plugin_secrets_sal.Burst.{
  Holder, free, reader, other, Shared, System, Env, Answers, load_gives, clock_reads, lock_won,
  lock_busy, lock_waited, endpoint_fails, put_done, log_done, delete_done, lock_freed, pick,
  other_locks, other_unlocks, dropped, other_puts, Reach, begin, later,
}
use vault_plugin_secrets_sal.Burst.Family.{update_ne}
use vault_plugin_secrets_sal.Burst.Exclusion.{critical, Reach-Excludes}

free-cases : (h : Holder) → (h ≡ free) ⊎ (h ≢ free)
free-cases free = inl refl
free-cases (reader i) = inr (λ k. cc)
free-cases other = inr (λ k. cc)

waiting-cases : (p : Pc) → (p ≡ waiting) ⊎ (p ≢ waiting)
waiting-cases start = inr (λ k. cc)
waiting-cases waiting = inl refl
waiting-cases p = inr (λ k. cc)

module _ (name : String) (role : Role) where
  module _ (env : Env) (n : ℕ) where
    -- Some answer lets request `i` make a move from `p`.
    abbrev pub Open : ℕ → Pc → Shared → Type 0
    Open i p m = (e : Event) × (q : Pc) × (t : Shared) × Move name role p e q × Answers env i m e t

    load-Open :
        (i : ℕ) (p : Pc) (m : Shared)
        → ((o : Option CachedToken) → (q : Pc) × Move name role p (Event.loaded (ok o)) q)
        → Open i p m
    load-Open i p m moves = (_, _, _, (moves m.cached).1, load_gives refl)

    start-loads : (o : Option CachedToken) → (q : Pc) × Move name role start (Event.loaded (ok o)) q
    start-loads none = (_, Move.fast_miss)
    start-loads (some ct) = (_, Move.fast_hit)

    contended-loads :
        (o : Option CachedToken) → (q : Pc) × Move name role contended (Event.loaded (ok o)) q
    contended-loads none = (_, Move.contended_miss)
    contended-loads (some ct) = (_, Move.contended_hit)

    recheck-loads :
        (o : Option CachedToken) → (q : Pc) × Move name role recheck (Event.loaded (ok o)) q
    recheck-loads none = (_, Move.recheck_miss)
    recheck-loads (some ct) = (_, Move.recheck_hit)

    failed-loads :
        (e : Error) (o : Option CachedToken)
        → (q : Pc) × Move name role (mint_failed e) (Event.loaded (ok o)) q
    failed-loads e none = (_, Move.failed_miss)
    failed-loads e (some ct) = (_, Move.failed_hit)

    -- Requests that do not exist do not move.
    Reach-start :
        {c : Option CachedToken} {s : System}
        → Reach env name role n c s
        → (j : ℕ) → n ≤ j
        → s.pc j ≡ start
    Reach-start begin j h = refl
    Reach-start (later r (other_locks _)) j h = Reach-start r j h
    Reach-start (later r (other_unlocks _)) j h = Reach-start r j h
    Reach-start (later r dropped) j h = Reach-start r j h
    Reach-start (later r (other_puts _ _)) j h = Reach-start r j h
    Reach-start (later {s = s} r (pick i {p = p} lt mv a)) j h =
        update_ne s.pc i p j (λ e. omega arith) ∙ Reach-start r j h

    Reach-critical-lt :
        {c : Option CachedToken} {s : System}
        → Reach env name role n c s
        → (j : ℕ) → critical (s.pc j) ≡ true
        → j < n
    Reach-critical-lt r j in_j = elim (dec_lt j n) [
      | yes below ↦ below
      | no above ↦ let outside = Reach-start r j (omega arith) in cc (rw outside at in_j)
    ]

    module _ (now : Time) (reading : env.Reading now) where
      -- A clock reading, whatever its test says.
      check-Open :
          (i : ℕ) (p : Pc) (m : Shared) (b : Bool) {q r : Pc}
          → (b ≡ true → Move name role p (Event.read_clock now) q)
          → (b ≡ false → Move name role p (Event.read_clock now) r)
          → Open i p m
      check-Open i p m true if_true if_false = (_, _, _, if_true refl, clock_reads reading)
      check-Open i p m false if_true if_false = (_, _, _, if_false refl, clock_reads reading)

      failed_check-Open :
          (i : ℕ) (e : Error) (ct : CachedToken) (m : Shared) → Open i (failed_check e ct) m
      failed_check-Open i e ct m = elim (Bool-cases (before now ct.expires_at)) [
        | inr late ↦ (_, _, _, Move.failed_expired late, clock_reads reading)
        | inl valid ↦
            check-Open i _ m (is_transient_mint_error e) (Move.failed_valid valid)
              (Move.failed_for_good valid)
      ]

      at_lock-Open : (i : ℕ) (m : Shared) → Open i at_lock m
      at_lock-Open i m = elim (free-cases m.holder) [
        | inl h ↦ (_, _, _, Move.lock_free, lock_won h)
        | inr h ↦ (_, _, _, Move.lock_taken, lock_busy h)
      ]

      -- At a point that is neither the end nor the wait for the lock, a move is open.
      Pc-Open :
          (i : ℕ) (p : Pc) (m : Shared) → p ≢ waiting → ((x : Issued) → p ≢ done x) → Open i p m
      Pc-Open i start m w d = load-Open i start m start-loads
      Pc-Open i (fast_check ct) m w d =
          check-Open i _ m (fresh ct now role.renew_skew) Move.fast_fresh Move.fast_stale
      Pc-Open i at_lock m w d = at_lock-Open i m
      Pc-Open i contended m w d = load-Open i contended m contended-loads
      Pc-Open i (contended_check ct) m w d =
          check-Open i _ m (before now ct.expires_at) Move.contended_valid Move.contended_expired
      Pc-Open i waiting m w d = absurd (w refl)
      Pc-Open i recheck m w d = load-Open i recheck m recheck-loads
      Pc-Open i (recheck_check ct) m w d =
          check-Open i _ m (fresh ct now role.renew_skew) Move.recheck_fresh Move.recheck_stale
      Pc-Open i at_mint m w d = (_, _, _, Move.mint_begins, clock_reads reading)
      Pc-Open i (minting t) m w d =
          (_, _, _, Move.mint_fails {e = external "no answer"}, endpoint_fails)
      Pc-Open i (storing ct) m w d = (_, _, _, Move.store_done, put_done)
      Pc-Open i (stored ct) m w d = (_, _, _, Move.store_logged, log_done)
      Pc-Open i (mint_failed e) m w d = load-Open i _ m (failed-loads e)
      Pc-Open i (failed_check e ct) m w d = failed_check-Open i e ct m
      Pc-Open i (degraded e ct) m w d = (_, _, _, Move.degraded_logged, log_done)
      Pc-Open i (purging e) m w d = (_, _, _, Move.purge_done, delete_done)
      Pc-Open i (unlocking x) m w d = (_, _, _, Move.unlocked, lock_freed)
      Pc-Open i (done x) m w d = absurd (d x refl)

      -- A request that waits for the lock can take it, or its holder can make a move.
      blocked :
          {c : Option CachedToken} {s : System}
          → Reach env name role n c s
          → (i : ℕ) → i < n
          → s.pc i ≡ waiting
          → (h : Holder) → s.shared.holder ≡ h
          → ((j : ℕ) × (j < n) × Open j (s.pc j) s.shared) ⊎ (s.shared.holder ≡ other)
      blocked r i lt w other h = inr h
      blocked r i lt w free h = inl (i, lt, rw w (_, _, _, Move.waited, lock_waited h))
      blocked {s = s} r i lt w (reader j) h =
          let in_j = (Reach-Excludes env name role n r).inside j h in
          inl (
            j,
            Reach-critical-lt r j in_j,
            Pc-Open j (s.pc j) s.shared (λ k. cc (rw k at in_j)) (λ x k. cc (rw k at in_j)),
          )

      -- In every state that a burst reaches with a request that is not done, some request can make a
      -- move, or another request than these holds the mint lock.
      pub no_deadlock :
          {c : Option CachedToken} {s : System}
          → Reach env name role n c s
          → (i : ℕ) → i < n
          → ((x : Issued) → s.pc i ≢ done x)
          → ((j : ℕ) × (j < n) × Open j (s.pc j) s.shared) ⊎ (s.shared.holder ≡ other)
      no_deadlock {s = s} r i lt unfinished = elim (waiting-cases (s.pc i)) [
        | inr w ↦ inl (i, lt, Pc-Open i (s.pc i) s.shared w unfinished)
        | inl w ↦ blocked r i lt w s.shared.holder refl
      ]
