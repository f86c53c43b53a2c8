-- ===== src/Burst.antt =====
-- Several requests for a token of one role at once: each makes the moves of path_creds.go
-- `issueToken`, they share the cached token and the mint lock, and the moves interleave in any
-- order. Other requests may hold the lock, whose pool roles share, and drop the cached token, and a
-- rotation puts another.
pub mod Family
pub mod Exclusion
pub mod Balance
pub mod Stampede
pub mod Termination
pub mod Progress
pub mod Serving
pub mod Rewrite
use vault_plugin_secrets_sal.Common.{
  ℕ, suc, ◌<◌, ◌≡◌, ◌≢◌, String, Bool, true, false, Option, none, some,
}
use vault_plugin_secrets_sal.Errors.{Error, ok, fail}
use vault_plugin_secrets_sal.Role.{Role}
use vault_plugin_secrets_sal.Token.{Time, TokenResult, CachedToken}
use vault_plugin_secrets_sal.Platform.{LogLine}
use vault_plugin_secrets_sal.Creds.Moves.{
  Pc, Event, loaded, read_clock, tried_lock, took_lock, requested, put_token, logged, deleted,
  released, Move,
}
use vault_plugin_secrets_sal.Burst.Family.{update}

-- Who holds the mint lock.
pub data Holder : Type 0 where
  free : Holder
  reader : ℕ → Holder
  other : Holder

-- What the requests share, with two counts that the code does not keep: of the tokens that the
-- endpoint gave, and of those that were lost: by a failed put, or since another request dropped or
-- replaced the cached one.
pub record Shared : Type 0 where
  pub cached : Option CachedToken
  pub holder : Holder
  pub minted : ℕ
  pub lost : ℕ

pub record System : Type 0 where
  pub shared : Shared
  pub pc : ℕ → Pc

-- The clock readings and the tokens of the endpoint that a run may see.
pub record Env : Type 1 where
  pub Reading : Time → Type 0
  pub Answer : TokenResult → Type 0

module _ (env : Env) where
  -- How the shared state answers a call of request `i`. A failed write may have been done or not.
  pub data Answers (i : ℕ) (m : Shared) : Event → Shared → Type 0 where
    load_gives : {o : Option CachedToken} → o ≡ m.cached → Answers i m (loaded (ok o)) m
    load_fails : {e : Error} → Answers i m (loaded (fail e)) m
    clock_reads : {t : Time} → env.Reading t → Answers i m (read_clock t) m
    lock_won : m.holder ≡ free → Answers i m (tried_lock true) (record m { holder = reader i })
    lock_busy : m.holder ≢ free → Answers i m (tried_lock false) m
    lock_waited : m.holder ≡ free → Answers i m took_lock (record m { holder = reader i })
    endpoint_gives :
        {res : TokenResult}
        → env.Answer res
        → Answers i m (requested (ok res)) (record m { minted = suc m.minted })
    endpoint_fails : {e : Error} → Answers i m (requested (fail e)) m
    put_done :
        {ct : CachedToken} → Answers i m (put_token ct (ok tt)) (record m { cached = some ct })
    put_fails :
        {ct : CachedToken} {e : Error}
        → Answers i m (put_token ct (fail e)) (record m { lost = suc m.lost })
    put_unsure :
        {ct : CachedToken} {e : Error}
        → Answers i m (put_token ct (fail e)) (record m { cached = some ct; lost = suc m.lost })
    log_done : {l : LogLine} → Answers i m (logged l) m
    delete_done : Answers i m (deleted (ok tt)) (record m { cached = none })
    delete_fails : {e : Error} → Answers i m (deleted (fail e)) m
    delete_unsure : {e : Error} → Answers i m (deleted (fail e)) (record m { cached = none })
    lock_freed : Answers i m released (record m { holder = free })

  module _ (name : String) (role : Role) (n : ℕ) where
    -- Requests from `n` on do not exist, and never move.
    pub data Step (s : System) : System → Type 0 where
      pick :
          (i : ℕ) {e : Event} {m : Shared} {p : Pc}
          → i < n
          → Move name role (s.pc i) e p
          → Answers i s.shared e m
          → Step s (record { shared = m; pc = update s.pc i p })
      other_locks :
          s.shared.holder ≡ free → Step s (record s { shared = record s.shared { holder = other } })
      other_unlocks :
          s.shared.holder ≡ other → Step s (record s { shared = record s.shared { holder = free } })
      dropped :
          Step s (record s { shared = record s.shared { cached = none; lost = suc s.shared.lost } })
      -- A rotation puts its own token under the lock, in place of the one before.
      other_puts :
          (ct : CachedToken)
          → s.shared.holder ≡ other
          → Step s
              (record s { shared = record s.shared { cached = some ct; lost = suc s.shared.lost } })

    abbrev pub init : Option CachedToken → System
    init c = record {
      shared = record { cached = c; holder = free; minted = 0; lost = 0 };
      pc = λ _. Pc.start;
    }

    -- The states that a burst of `n` requests reaches from a cache.
    pub data Reach (c : Option CachedToken) : System → Type 0 where
      begin : Reach c (init c)
      later : {s t : System} → Reach c s → Step s t → Reach c t
