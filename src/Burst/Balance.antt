-- ===== src/Burst/Balance.antt =====
-- What the tokens of the endpoint have come to, at each point of the request that holds the mint
-- lock: a token that is not lost is cached, and lasts.
use vault_plugin_secrets_sal.Common.{
  ℕ, suc, ◌≤◌, ◌≡◌, refl, sym, ◌⊎◌, String, true, false, none, some, Bool-cases, inl, inr, arith,
}
use vault_plugin_secrets_sal.Errors.{Error}
use vault_plugin_secrets_sal.Client.{is_transient_mint_error}
use vault_plugin_secrets_sal.Role.{Role}
use vault_plugin_secrets_sal.Token.{Time, TokenResult, CachedToken, fresh}
use vault_plugin_secrets_sal.Creds.{cached_token_of}
use vault_plugin_secrets_sal.Creds.Moves.{
  Pc, start, recheck_check, at_mint, minting, storing, mint_failed, failed_check, degraded, purging,
  Event, Move, after_failure,
}
use vault_plugin_secrets_sal.Burst.{
  Shared, Env, Answers, load_gives, load_fails, clock_reads, lock_won, lock_busy, lock_waited,
  endpoint_gives, endpoint_fails, put_done, put_fails, put_unsure, log_done, delete_done,
  delete_fails, delete_unsure, lock_freed,
}
use vault_plugin_secrets_sal.Burst.Exclusion.{critical}

module _ (env : Env) (name : String) (role : Role) where
  -- Fresh at every reading of the clock in the burst.
  abbrev pub Lasts : CachedToken → Type 0
  Lasts ct = (t : Time) → env.Reading t → fresh ct t role.renew_skew ≡ true

  -- Every token that the endpoint gave was lost, or one is left, and it is cached and lasts.
  abbrev pub Spent : Shared → Type 0
  Spent m =
      (m.minted ≤ m.lost)
      ⊎ ((ct : CachedToken) × (m.cached ≡ some ct) × Lasts ct × (m.minted ≤ suc m.lost))

  -- The same at each point of a request that holds the lock.
  abbrev pub At : Pc → Shared → Type 0
  At (recheck_check ct) m = Spent m × ((m.cached ≡ some ct) ⊎ (m.minted ≤ m.lost))
  At at_mint m = m.minted ≤ m.lost
  At (minting t) m = env.Reading t × (m.minted ≤ m.lost)
  At (storing ct) m = Lasts ct × (m.minted ≤ suc m.lost)
  At (mint_failed e) m = m.minted ≤ m.lost
  At (failed_check e ct) m = m.minted ≤ m.lost
  At (degraded e ct) m = m.minted ≤ m.lost
  At (purging e) m = m.minted ≤ m.lost
  At _ m = Spent m

  pub Spent-le : (m : Shared) → Spent m → m.minted ≤ suc m.lost
  Spent-le m h = omega arith

  pub At-le : (p : Pc) (m : Shared) → At p m → m.minted ≤ suc m.lost
  At-le start m h = omega arith
  At-le p m h = omega arith

  pub At-Spent : (p : Pc) (m : Shared) → critical p ≡ false → At p m → Spent m
  At-Spent start m c h = h
  At-Spent (recheck_check _) m c h = cc
  At-Spent at_mint m c h = cc
  At-Spent (minting _) m c h = cc
  At-Spent (storing _) m c h = cc
  At-Spent (mint_failed _) m c h = cc
  At-Spent (failed_check _ _) m c h = cc
  At-Spent (degraded _ _) m c h = cc
  At-Spent (purging _) m c h = cc
  At-Spent p m c h = h

  pub Spent-At : (p : Pc) (m : Shared) → critical p ≡ false → Spent m → At p m
  Spent-At start m c h = h
  Spent-At (recheck_check _) m c h = cc
  Spent-At at_mint m c h = cc
  Spent-At (minting _) m c h = cc
  Spent-At (storing _) m c h = cc
  Spent-At (mint_failed _) m c h = cc
  Spent-At (failed_check _ _) m c h = cc
  Spent-At (degraded _ _) m c h = cc
  Spent-At (purging _) m c h = cc
  Spent-At p m c h = h

  -- A lost token pays for a new one.
  pub drop-At :
      (p : Pc) (m : Shared) → At p m → At p (record m { cached = none; lost = suc m.lost })
  drop-At start m h = inl (omega arith)
  drop-At (recheck_check _) m h = (inl (omega arith), inr (omega arith))
  drop-At at_mint m h = omega arith
  drop-At (minting _) m h = (h.0, omega arith)
  drop-At (storing _) m h = (h.0, omega arith)
  drop-At (mint_failed _) m h = omega arith
  drop-At (failed_check _ _) m h = omega arith
  drop-At (degraded _ _) m h = omega arith
  drop-At (purging _) m h = omega arith
  drop-At p m h = inl (omega arith)

  after_failure-At : (e : Error) (m : Shared) → m.minted ≤ m.lost → At (after_failure e) m
  after_failure-At e m h = elim (Bool-cases (is_transient_mint_error e)) [
    | inl t ↦ rw t (inl h)
    | inr f ↦ rw f h
  ]

  -- A token that is stale at some reading does not last.
  Spent-stale :
      (m : Shared) (ct : CachedToken) (t : Time)
      → env.Reading t
      → fresh ct t role.renew_skew ≡ false
      → Spent m × ((m.cached ≡ some ct) ⊎ (m.minted ≤ m.lost))
      → m.minted ≤ m.lost
  Spent-stale m ct t reading stale (s, inr h) = h
  Spent-stale m ct t reading stale (inl h, inl here) = h
  Spent-stale m ct t reading stale (inr (kept, held, lasts, le), inl here) =
      let same : kept ≡ ct = cc in let is_fresh = rw same at (lasts t reading) in absurd (cc)

  Spent-none : (m : Shared) → none ≡ m.cached → Spent m → m.minted ≤ m.lost
  Spent-none m empty (inl h) = h
  Spent-none m empty (inr (kept, held, lasts, le)) = cc

  module _
      (lasting : (t t' : Time) (res : TokenResult)
        → env.Reading t
        → env.Reading t'
        → env.Answer res
        → fresh (cached_token_of t role res) t' role.renew_skew ≡ true) where
    -- Each move keeps the balance where the request stands.
    pub Move-At :
        {i : ℕ} {m m' : Shared} {p p' : Pc} {e : Event}
        → Move name role p e p'
        → Answers env i m e m'
        → At p m
        → At p' m'
    Move-At Move.fast_error load_fails h = h
    Move-At Move.fast_miss (load_gives _) h = h
    Move-At Move.fast_hit (load_gives _) h = h
    Move-At (Move.fast_fresh _) (clock_reads _) h = h
    Move-At (Move.fast_stale _) (clock_reads _) h = h
    Move-At Move.lock_free (lock_won _) h = h
    Move-At Move.lock_taken (lock_busy _) h = h
    Move-At Move.contended_error load_fails h = h
    Move-At Move.contended_miss (load_gives _) h = h
    Move-At Move.contended_hit (load_gives _) h = h
    Move-At (Move.contended_valid _) (clock_reads _) h = h
    Move-At (Move.contended_expired _) (clock_reads _) h = h
    Move-At Move.waited (lock_waited _) h = h
    Move-At Move.recheck_error load_fails h = h
    Move-At {m = m} Move.recheck_miss (load_gives e) h = Spent-none m e h
    Move-At Move.recheck_hit (load_gives e) h = (h, inl (sym e))
    Move-At (Move.recheck_fresh _) (clock_reads _) h = h.0
    Move-At {m = m} (Move.recheck_stale {ct = ct} {t = t} stale) (clock_reads reading) h =
        Spent-stale m ct t reading stale h
    Move-At Move.mint_begins (clock_reads reading) h = (reading, h)
    Move-At (Move.mint_answers {t = t} {res = res}) (endpoint_gives answer) h =
        (λ t' reading. lasting t t' res h.0 reading answer, omega arith)
    Move-At Move.mint_fails endpoint_fails h = h.1
    Move-At (Move.store_done {ct = ct}) put_done h = inr (ct, refl, h.0, h.1)
    Move-At Move.store_fails put_fails h = h.1
    Move-At Move.store_fails put_unsure h = h.1
    Move-At Move.store_logged log_done h = h
    Move-At {m = m} (Move.failed_error {e = e}) load_fails h = after_failure-At e m h
    Move-At {m = m} (Move.failed_miss {e = e}) (load_gives _) h = after_failure-At e m h
    Move-At Move.failed_hit (load_gives _) h = h
    Move-At (Move.failed_valid _ _) (clock_reads _) h = h
    Move-At (Move.failed_for_good _ _) (clock_reads _) h = h
    Move-At {m = m} (Move.failed_expired {e = e} _) (clock_reads _) h = after_failure-At e m h
    Move-At Move.degraded_logged log_done h = inl h
    Move-At Move.purge_done delete_done h = inl h
    Move-At Move.purge_fails delete_fails h = inl h
    Move-At Move.purge_fails delete_unsure h = inl h
    Move-At Move.unlocked lock_freed h = h
