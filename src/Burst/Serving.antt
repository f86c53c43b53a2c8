-- ===== src/Burst/Serving.antt =====
-- Which cached tokens the requests of a burst are served.
use native.Mathlib.Decide.{ℕ_discrete}
use vault_plugin_secrets_sal.Common.{
  ℕ, ◌≡◌, String, true, false, Option, none, Bool-cases, inl, inr,
}
use vault_plugin_secrets_sal.Common.Int.{InRange}
use vault_plugin_secrets_sal.Errors.{Error, ok, fail}
use vault_plugin_secrets_sal.Client.{is_transient_mint_error}
use vault_plugin_secrets_sal.Role.{Role}
use vault_plugin_secrets_sal.Role.Handlers.{role_refusal}
use vault_plugin_secrets_sal.Token.{Time, CachedToken, before, fresh}
use vault_plugin_secrets_sal.Token.Expiry.{fresh-before}
use vault_plugin_secrets_sal.Creds.Moves.{
  Issued, Pc, degraded, unlocking, done, Event, Move, after_failure,
}
use vault_plugin_secrets_sal.Burst.{
  Shared, System, Env, Answers, clock_reads, pick, other_locks, other_unlocks, dropped, other_puts,
  Reach, begin, later,
}
use vault_plugin_secrets_sal.Burst.Family.{update_self, update_ne}

module _ (env : Env) where
  -- At some reading of the clock it had not expired.
  abbrev pub Unexpired : CachedToken → Type 0
  Unexpired ct = (t : Time) × env.Reading t × (before t ct.expires_at ≡ true)

  abbrev Result : Issued → Type 0
  Result (fail e) = Unit {0}
  Result (ok (ct, true)) = Unexpired ct
  Result (ok (ct, false)) = Unit {0}

  -- A request that serves a cached token does so on such a reading.
  abbrev Served : Pc → Type 0
  Served (degraded e ct) = Unexpired ct
  Served (unlocking r) = Result r
  Served (done r) = Result r
  Served _ = Unit {0}

  after_failure-Served : (e : Error) → Served (after_failure e)
  after_failure-Served e = elim (Bool-cases (is_transient_mint_error e)) [
    | inl t ↦ rw t tt
    | inr f ↦ rw f tt
  ]

  module _ (name : String) (role : Role) (checked : role_refusal role ≡ none)
      (range : InRange role.renew_skew) where
    fresh-Unexpired :
        (ct : CachedToken) (t : Time)
        → env.Reading t
        → fresh ct t role.renew_skew ≡ true
        → Unexpired ct
    fresh-Unexpired ct t reading h = (t, reading, fresh-before ct t role checked range h)

    Move-Served :
        {i : ℕ} {m m' : Shared} {p p' : Pc} {e : Event}
        → Move name role p e p'
        → Answers env i m e m'
        → Served p
        → Served p'
    Move-Served (Move.fast_fresh {ct = ct} {t = t} h) (clock_reads reading) b =
        fresh-Unexpired ct t reading h
    Move-Served (Move.recheck_fresh {ct = ct} {t = t} h) (clock_reads reading) b =
        fresh-Unexpired ct t reading h
    Move-Served (Move.contended_valid {t = t} h) (clock_reads reading) b = (t, reading, h)
    Move-Served (Move.failed_valid {t = t} h _) (clock_reads reading) b = (t, reading, h)
    Move-Served (Move.failed_error {e = e}) a b = after_failure-Served e
    Move-Served (Move.failed_miss {e = e}) a b = after_failure-Served e
    Move-Served (Move.failed_expired {e = e} _) a b = after_failure-Served e
    Move-Served Move.degraded_logged a b = b
    Move-Served Move.unlocked a b = b
    Move-Served mv a b = tt

    Reach-Served :
        (n : ℕ) {c : Option CachedToken} {s : System}
        → Reach env name role n c s
        → (i : ℕ) → Served (s.pc i)
    Reach-Served n begin i = tt
    Reach-Served n (later r (other_locks _)) i = Reach-Served n r i
    Reach-Served n (later r (other_unlocks _)) i = Reach-Served n r i
    Reach-Served n (later r dropped) i = Reach-Served n r i
    Reach-Served n (later r (other_puts _ _)) i = Reach-Served n r i
    Reach-Served n (later {s = s} r (pick j {p = p} lt mv a)) i = elim (ℕ_discrete j i) [
      | yes same ↦ rw (← same, update_self s.pc j p) (Move-Served mv a (Reach-Served n r j))
      | no differ ↦ rw (update_ne s.pc j p i differ) (Reach-Served n r i)
    ]

    -- However the requests of a burst interleave, a cached token that one of them is served had not
    -- expired at a reading of the clock in the burst, for a role that passes the checks and whose
    -- renew skew is in the range of an int64.
    pub served-Unexpired :
        (n : ℕ) {c : Option CachedToken} {s : System}
        → Reach env name role n c s
        → (i : ℕ) (ct : CachedToken) → s.pc i ≡ done (ok (ct, true))
        → Unexpired ct
    served-Unexpired n r i ct ended = rw ended at (Reach-Served n r i)
