-- ===== src/Burst/Exclusion.antt =====
-- The mint lock keeps requests apart: whoever stands between taking it and giving it back is its
-- holder.
use vault_plugin_secrets_sal.Common.{
  ℕ, ◌≡◌, refl, String, Bool, true, false, Option, Bool-cases, inl, inr, arith,
}
use vault_plugin_secrets_sal.Errors.{Error}
use vault_plugin_secrets_sal.Client.{is_transient_mint_error}
use vault_plugin_secrets_sal.Role.{Role}
use vault_plugin_secrets_sal.Token.{CachedToken}
use vault_plugin_secrets_sal.Creds.Moves.{
  Pc, start, fast_check, at_lock, contended, contended_check, waiting, done, Event, Move,
  after_failure,
}
use vault_plugin_secrets_sal.Burst.{
  free, reader, Shared, System, Env, Answers, load_gives, load_fails, clock_reads, lock_won,
  lock_busy, lock_waited, endpoint_gives, endpoint_fails, put_done, put_fails, put_unsure, log_done,
  delete_done, delete_fails, delete_unsure, lock_freed, Step, pick, other_locks, other_unlocks,
  dropped, other_puts, Reach, begin, later,
}
use vault_plugin_secrets_sal.Burst.Family.{update}

-- Between taking the lock and giving it back.
abbrev pub critical : Pc → Bool
critical start = false
critical (fast_check _) = false
critical at_lock = false
critical contended = false
critical (contended_check _) = false
critical waiting = false
critical (done _) = false
critical _ = true

-- How one move treats the lock: it keeps it, takes it, or gives it back. Outside the critical
-- section a request changes nothing else.
pub data Locking (i : ℕ) (m m' : Shared) (p p' : Pc) : Type 0 where
  keeps :
      critical p' ≡ critical p
      → m'.holder ≡ m.holder
      → (critical p ≡ false → m' ≡ m)
      → Locking i m m' p p'
  takes :
      critical p ≡ false
      → critical p' ≡ true
      → m.holder ≡ free
      → m'.holder ≡ reader i
      → Locking i m m' p p'
  gives : critical p ≡ true → critical p' ≡ false → m'.holder ≡ free → Locking i m m' p p'

-- Requests in the critical section hold the lock, and who holds it is there.
pub record Excludes (s : System) : Type 0 where
  pub exclusive : (i : ℕ) → critical (s.pc i) ≡ true → s.shared.holder ≡ reader i
  pub inside : (i : ℕ) → s.shared.holder ≡ reader i → critical (s.pc i) ≡ true

pub Locking-Excludes :
    (s : System) (i : ℕ) (m : Shared) (p : Pc)
    → Locking i s.shared m (s.pc i) p
    → Excludes s
    → Excludes (record { shared = m; pc = update s.pc i p })
Locking-Excludes s i m p (keeps c h _) x = record {
  exclusive = λ j k. ground (arith, x.exclusive i, x.exclusive j);
  inside = λ j k. ground (arith, x.inside i, x.inside j);
}
Locking-Excludes s i m p (takes c d was now) x = record {
  exclusive = λ j k. ground (arith, x.exclusive j);
  inside = λ j k. ground (arith, x.inside j);
}
Locking-Excludes s i m p (gives c d now) x = record {
  exclusive = λ j k. ground (arith, x.exclusive i, x.exclusive j);
  inside = λ j k. ground arith;
}

after_failure-critical : (e : Error) → critical (after_failure e) ≡ true
after_failure-critical e = elim (Bool-cases (is_transient_mint_error e)) [
  | inl t ↦ rw t
  | inr f ↦ rw f
]

module _ (env : Env) (name : String) (role : Role) where
  pub Move-Locking :
      {i : ℕ} {m m' : Shared} {p p' : Pc} {e : Event}
      → Move name role p e p'
      → Answers env i m e m'
      → Locking i m m' p p'
  Move-Locking Move.fast_error load_fails = keeps refl refl (λ _. refl)
  Move-Locking Move.fast_miss (load_gives _) = keeps refl refl (λ _. refl)
  Move-Locking Move.fast_hit (load_gives _) = keeps refl refl (λ _. refl)
  Move-Locking (Move.fast_fresh _) (clock_reads _) = keeps refl refl (λ _. refl)
  Move-Locking (Move.fast_stale _) (clock_reads _) = keeps refl refl (λ _. refl)
  Move-Locking Move.lock_free (lock_won h) = takes refl refl h refl
  Move-Locking Move.lock_taken (lock_busy _) = keeps refl refl (λ _. refl)
  Move-Locking Move.contended_error load_fails = keeps refl refl (λ _. refl)
  Move-Locking Move.contended_miss (load_gives _) = keeps refl refl (λ _. refl)
  Move-Locking Move.contended_hit (load_gives _) = keeps refl refl (λ _. refl)
  Move-Locking (Move.contended_valid _) (clock_reads _) = keeps refl refl (λ _. refl)
  Move-Locking (Move.contended_expired _) (clock_reads _) = keeps refl refl (λ _. refl)
  Move-Locking Move.waited (lock_waited h) = takes refl refl h refl
  Move-Locking Move.recheck_error load_fails = keeps refl refl (λ h. cc)
  Move-Locking Move.recheck_miss (load_gives _) = keeps refl refl (λ h. cc)
  Move-Locking Move.recheck_hit (load_gives _) = keeps refl refl (λ h. cc)
  Move-Locking (Move.recheck_fresh _) (clock_reads _) = keeps refl refl (λ h. cc)
  Move-Locking (Move.recheck_stale _) (clock_reads _) = keeps refl refl (λ h. cc)
  Move-Locking Move.mint_begins (clock_reads _) = keeps refl refl (λ h. cc)
  Move-Locking Move.mint_answers (endpoint_gives _) = keeps refl refl (λ h. cc)
  Move-Locking Move.mint_fails endpoint_fails = keeps refl refl (λ h. cc)
  Move-Locking Move.store_done put_done = keeps refl refl (λ h. cc)
  Move-Locking Move.store_fails put_fails = keeps refl refl (λ h. cc)
  Move-Locking Move.store_fails put_unsure = keeps refl refl (λ h. cc)
  Move-Locking Move.store_logged log_done = keeps refl refl (λ h. cc)
  Move-Locking (Move.failed_error {e = e}) load_fails =
      keeps (after_failure-critical e) refl (λ h. cc)
  Move-Locking (Move.failed_miss {e = e}) (load_gives _) =
      keeps (after_failure-critical e) refl (λ h. cc)
  Move-Locking Move.failed_hit (load_gives _) = keeps refl refl (λ h. cc)
  Move-Locking (Move.failed_valid _ _) (clock_reads _) = keeps refl refl (λ h. cc)
  Move-Locking (Move.failed_for_good _ _) (clock_reads _) = keeps refl refl (λ h. cc)
  Move-Locking (Move.failed_expired {e = e} _) (clock_reads _) =
      keeps (after_failure-critical e) refl (λ h. cc)
  Move-Locking Move.degraded_logged log_done = keeps refl refl (λ h. cc)
  Move-Locking Move.purge_done delete_done = keeps refl refl (λ h. cc)
  Move-Locking Move.purge_fails delete_fails = keeps refl refl (λ h. cc)
  Move-Locking Move.purge_fails delete_unsure = keeps refl refl (λ h. cc)
  Move-Locking Move.unlocked lock_freed = gives refl refl refl

  module _ (n : ℕ) where
    pub Step-Excludes : {s t : System} → Step env name role n s t → Excludes s → Excludes t
    Step-Excludes {s = s} (pick i lt mv a) x = Locking-Excludes s i _ _ (Move-Locking mv a) x
    Step-Excludes (other_locks h) x = record {
      exclusive = λ j k. ground (arith, x.exclusive j);
      inside = λ j k. ground arith;
    }
    Step-Excludes (other_unlocks h) x = record {
      exclusive = λ j k. ground (arith, x.exclusive j);
      inside = λ j k. ground arith;
    }
    Step-Excludes dropped x = record { exclusive = x.exclusive; inside = x.inside }
    Step-Excludes (other_puts ct h) x = record { exclusive = x.exclusive; inside = x.inside }

    pub Reach-Excludes :
        {c : Option CachedToken} {s : System} → Reach env name role n c s → Excludes s
    Reach-Excludes begin = record { exclusive = λ i k. cc; inside = λ i k. cc }
    Reach-Excludes (later r st) = Step-Excludes st (Reach-Excludes r)

    -- In no state that a burst reaches do two requests stand between taking the mint lock and giving
    -- it back.
    pub mutual_exclusion :
        {c : Option CachedToken} {s : System}
        → Reach env name role n c s
        → (i j : ℕ) → critical (s.pc i) ≡ true
        → critical (s.pc j) ≡ true
        → i ≡ j
    mutual_exclusion r i j in_i in_j =
        let x = Reach-Excludes r in let a = x.exclusive i in_i in let b = x.exclusive j in_j in cc
