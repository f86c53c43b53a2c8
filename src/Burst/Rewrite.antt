-- ===== src/Burst/Rewrite.antt =====
-- A write of the configuration (path_config.go `pathConfigWrite`, which stores and then purges)
-- between the moves of requests, which read the configuration once, before `issueToken`.
use native.Mathlib.Decide.{ℕ_discrete}
use vault_plugin_secrets_sal.Common.{
  ℕ, suc, ◌≡◌, refl, String, Bool, true, false, Option, none, some,
}
use vault_plugin_secrets_sal.Errors.{ok}
use vault_plugin_secrets_sal.Config.{Config}
use vault_plugin_secrets_sal.Role.{Role}
use vault_plugin_secrets_sal.Token.{Time, TokenResult, fresh}
use vault_plugin_secrets_sal.Creds.{cached_token_of}
use vault_plugin_secrets_sal.Creds.Moves.{Pc, done, storing, Event, Move}
use vault_plugin_secrets_sal.Burst.{
  reader, Shared, System, Env, Answers, load_gives, clock_reads, lock_won, endpoint_gives, put_done,
  log_done, lock_freed, init,
}
use vault_plugin_secrets_sal.Burst.Family.{update}

-- The burst, the stored configuration, whether a write of it has stored and has still to purge, and
-- the configuration that each request has read.
pub record Scene : Type 0 where
  pub system : System
  pub config : Config
  pub writing : Bool
  pub under : ℕ → Option Config

module _ (env : Env) (name : String) (role : Role) where
  pub data Turn (s : Scene) : Scene → Type 0 where
    -- A request reads the configuration, and goes on to `issueToken`.
    begins :
        (i : ℕ) → s.under i ≡ none → Turn s (record s { under = update s.under i (some s.config) })
    moves :
        (i : ℕ) {c : Config} {e : Event} {m : Shared} {p : Pc}
        → s.under i ≡ some c
        → Move name role (s.system.pc i) e p
        → Answers env i s.system.shared e m
        → Turn s (record s { system = record { shared = m; pc = update s.system.pc i p } })
    -- A write puts the new configuration, and after that drops the cached token.
    stores : (new : Config) → s.writing ≡ false → Turn s (record s { config = new; writing = true })
    purges :
        s.writing ≡ true
        → Turn s (record s {
          system = record s.system {
            shared = record s.system.shared { cached = none; lost = suc s.system.shared.lost };
          };
          writing = false;
        })

  abbrev pub scene : Config → Scene
  scene c = record {
    system = init env name role 0 none;
    config = c;
    writing = false;
    under = λ _. none;
  }

  pub data Turns (s : Scene) : Scene → Type 0 where
    here : Turns s s
    then_turn : {t u : Scene} → Turns s t → Turn t u → Turns s u

  -- A whole write of the configuration, which stores and then purges, can come while a request that
  -- has minted under the old configuration holds the mint lock and has not cached its token yet:
  -- then that request caches its token after the purge, and a request that reads the new
  -- configuration is served it.
  pub stale_token-served :
      (old new : Config) (t : Time) (res : TokenResult)
      → env.Reading t
      → env.Answer res
      → fresh (cached_token_of t role res) t role.renew_skew ≡ true
      → (before_write : Scene) × (stored : Scene) × (purged : Scene) × (served : Scene) × Turns
          (scene old)
          before_write
        × (before_write.config ≡ old)
        × (before_write.writing ≡ false)
        × (before_write.under 0 ≡ some old)
        × (before_write.system.pc 0 ≡ storing (cached_token_of t role res))
        × (before_write.system.shared.holder ≡ reader 0)
        × Turn before_write stored
        × (stored.config ≡ new)
        × Turn stored purged
        × (purged.writing ≡ false)
        × (purged.system.shared.cached ≡ none)
        × (purged.system.shared.lost ≡ suc before_write.system.shared.lost)
        × (purged.under 1 ≡ none)
        × Turns purged served
        × (served.system.shared.lost ≡ purged.system.shared.lost)
        × (served.system.pc 0 ≡ done (ok (cached_token_of t role res, false)))
        × (served.under 1 ≡ some new)
        × (served.system.pc 1 ≡ done (ok (cached_token_of t role res, true)))
  unfolding ℕ_discrete
  stale_token-served old new t res reading answer is_fresh =
      let a0 = then_turn here (begins 0 refl) in
      let a1 = then_turn a0 (moves 0 refl Move.fast_miss (load_gives refl)) in
      let a2 = then_turn a1 (moves 0 refl Move.lock_free (lock_won refl)) in
      let a3 = then_turn a2 (moves 0 refl Move.recheck_miss (load_gives refl)) in
      let a4 = then_turn a3 (moves 0 refl Move.mint_begins (clock_reads reading)) in
      let a5 = then_turn a4 (moves 0 refl Move.mint_answers (endpoint_gives answer)) in
      let b0 = then_turn here (moves 0 refl Move.store_done put_done) in
      let b1 = then_turn b0 (moves 0 refl Move.store_logged log_done) in
      let b2 = then_turn b1 (moves 0 refl Move.unlocked lock_freed) in
      let b3 = then_turn b2 (begins 1 refl) in
      let b4 = then_turn b3 (moves 1 refl Move.fast_hit (load_gives refl)) in
      let b5 = then_turn b4 (moves 1 refl (Move.fast_fresh is_fresh) (clock_reads reading)) in
      (
        _,
        _,
        _,
        _,
        a5,
        refl,
        refl,
        refl,
        refl,
        refl,
        stores new refl,
        refl,
        purges refl,
        refl,
        refl,
        refl,
        refl,
        b5,
        refl,
        refl,
        refl,
        refl,
      )
