-- ===== src/Burst/Termination.antt =====
-- Every request of a burst comes to its end after few moves of its own.
use mathlib.Core.Logic.{ite}
use native.Mathlib.Decide.{ℕ_discrete}
use vault_plugin_secrets_sal.Common.{ℕ, ◌+◌, ◌≤◌, ◌<◌, String, Option, Bool-cases, inl, inr, arith}
use vault_plugin_secrets_sal.Errors.{Error}
use vault_plugin_secrets_sal.Client.{is_transient_mint_error}
use vault_plugin_secrets_sal.Role.{Role}
use vault_plugin_secrets_sal.Token.{CachedToken}
use vault_plugin_secrets_sal.Creds.Moves.{
  Pc, start, fast_check, at_lock, contended, contended_check, waiting, recheck, recheck_check,
  at_mint, minting, storing, stored, mint_failed, failed_check, degraded, purging, unlocking, done,
  Event, Move, after_failure,
}
use vault_plugin_secrets_sal.Burst.{
  System, Env, pick, other_locks, other_unlocks, dropped, other_puts, Reach, begin, later,
}
use vault_plugin_secrets_sal.Burst.Family.{update}

-- At most how many moves are left.
unfoldable pub moves_left : Pc → ℕ
moves_left start = 15
moves_left (fast_check _) = 14
moves_left at_lock = 13
moves_left contended = 12
moves_left (contended_check _) = 11
moves_left waiting = 10
moves_left recheck = 9
moves_left (recheck_check _) = 8
moves_left at_mint = 7
moves_left (minting _) = 6
moves_left (storing _) = 5
moves_left (stored _) = 4
moves_left (mint_failed _) = 4
moves_left (failed_check _ _) = 3
moves_left (degraded _ _) = 2
moves_left (purging _) = 2
moves_left (unlocking _) = 1
moves_left (done _) = 0

-- One more move of request `j`, seen by request `i`.
count-le :
    (f : ℕ → Pc) (i j : ℕ) (p : Pc) (k : ℕ)
    → moves_left p < moves_left (f j)
    → k + moves_left (f i) ≤ 15
    → k + ite (ℕ_discrete j i) 1 0 + moves_left (update f j p i) ≤ 15
count-le f i j p k fewer so_far = ground arith

moves_left-after_failure : (e : Error) → moves_left (after_failure e) ≤ 2
unfolding moves_left
moves_left-after_failure e = elim (Bool-cases (is_transient_mint_error e)) [
  | inl t ↦ rw t (omega arith)
  | inr f ↦ rw f (omega arith)
]

module _ (name : String) (role : Role) where
  Move-moves_left : {p p' : Pc} {e : Event} → Move name role p e p' → moves_left p' < moves_left p
  unfolding moves_left
  Move-moves_left (Move.failed_error {e = e}) = omega (arith, moves_left-after_failure e)
  Move-moves_left (Move.failed_miss {e = e}) = omega (arith, moves_left-after_failure e)
  Move-moves_left (Move.failed_expired {e = e} _) = omega (arith, moves_left-after_failure e)
  Move-moves_left mv = omega arith

  module _ (env : Env) (n : ℕ) where
    -- How many moves of the run are those of request `i`.
    unfoldable pub moves_of :
        {c : Option CachedToken} {s : System} → ℕ → Reach env name role n c s → ℕ
    moves_of i begin = 0
    moves_of i (later r (pick j lt mv a)) = moves_of i r + ite (ℕ_discrete j i) 1 0
    moves_of i (later r (other_locks h)) = moves_of i r
    moves_of i (later r (other_unlocks h)) = moves_of i r
    moves_of i (later r dropped) = moves_of i r
    moves_of i (later r (other_puts ct h)) = moves_of i r

    -- However the requests of a burst interleave, each makes at most 15 moves, and after the last of
    -- them it is done: what it has made and what it has left never come to more.
    pub moves_of-le :
        {c : Option CachedToken} {s : System} (i : ℕ) (r : Reach env name role n c s)
        → moves_of i r + moves_left (s.pc i) ≤ 15
    unfolding moves_of
    moves_of-le i begin = unfold moves_left in omega arith
    moves_of-le i (later r (other_locks h)) = moves_of-le i r
    moves_of-le i (later r (other_unlocks h)) = moves_of-le i r
    moves_of-le i (later r dropped) = moves_of-le i r
    moves_of-le i (later r (other_puts ct h)) = moves_of-le i r
    moves_of-le i (later {s = s} r (pick j {p = p} lt mv a)) =
        count-le s.pc i j p (moves_of i r) (Move-moves_left mv) (moves_of-le i r)
