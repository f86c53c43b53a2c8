-- ===== src/Creds/Moves/Minting.antt =====
-- The moves of minting, of storing the token, and of a failure to mint.
use vault_plugin_secrets_sal.Common.{
  String, refl, true, false, Option, none, some, on_nil, if◌then◌else◌, Bool-cases, inl, inr,
}
use vault_plugin_secrets_sal.Errors.{Error, Outcome, ok, fail, on_error}
use vault_plugin_secrets_sal.Config.{Config}
use vault_plugin_secrets_sal.Role.{Role}
use vault_plugin_secrets_sal.Token.{Time, TokenResult, CachedToken, before}
use vault_plugin_secrets_sal.Platform.{Platform, LogLine}
use vault_plugin_secrets_sal.Action.{Action, call}
use vault_plugin_secrets_sal.Client.{is_transient_mint_error}
use vault_plugin_secrets_sal.Creds.{
  cached_token_of, mint_and_cache, fail_closed, serve_or_fail, after_mint,
}
use vault_plugin_secrets_sal.Creds.Moves.{
  Pc, at_mint, minting, storing, mint_failed, failed_check, degraded, purging, unlocking, loaded,
  read_clock, requested, put_token, logged, deleted, after_failure, Move,
}
use vault_plugin_secrets_sal.Creds.Moves.Simulation.{
  Sim, Sim-act, Sim-call, Sim-pure, Sim-raise, Sim-bind,
}
use vault_plugin_secrets_sal.Creds.Moves.Lookups.{Served, clock-Sim, unexpired_cached-Sim}

module _ (V : Platform) (name : String) (cfg : Config) (role : Role) where
  abbrev Runs : {A : Type 0} → Pc → Action V A → (Outcome A → Pc) → Type 0
  Runs = Sim V name cfg role

  log-Sim :
      {p : Pc} {k : Outcome (Unit {0}) → Pc} (l : LogLine)
      → Move name role p (logged l) (k (ok tt))
      → Runs p (call V (V.log l)) k
  unfolding call
  log-Sim l move = Sim-call V name cfg role (V.log l) (λ _. logged l) (λ s. refl) (λ _. move)

  -- Minting, as `attempt` sees it.
  abbrev pub after_minting : Outcome CachedToken → Pc
  after_minting r = on_error r mint_failed (λ ct. unlocking (ok (ct, false)))

  requested-moves :
      (t : Time) (r : Outcome TokenResult)
      → Move name role
          (minting t)
          (requested r)
          (on_error r mint_failed (λ res. storing (cached_token_of t role res)))
  requested-moves t (ok res) = Move.mint_answers
  requested-moves t (fail e) = Move.mint_fails

  put_token-moves :
      (ct : CachedToken) (r : Outcome (Unit {0}))
      → Move name role (storing ct) (put_token ct r) (on_error r mint_failed (λ _. Pc.stored ct))
  put_token-moves ct (ok _) = Move.store_done
  put_token-moves ct (fail e) = Move.store_fails

  pub mint_and_cache-Sim : Runs at_mint (mint_and_cache V name cfg role) after_minting
  unfolding mint_and_cache
  mint_and_cache-Sim =
      clock-Sim V name cfg role _ minting (λ t. Move.mint_begins)
        λ t.
          Sim-bind V name cfg role _ _ (λ res. storing (cached_token_of t role res))
            (Sim-act V name cfg role _ requested (λ s. refl) (requested-moves t))
            λ res.
              let ct = cached_token_of t role res in
              Sim-bind V name cfg role _ _ (λ _. Pc.stored ct)
                (Sim-act V name cfg role _ (put_token ct) (λ s. refl) (put_token-moves ct))
                λ _.
                  Sim-bind V name cfg role _ _ (λ _. unlocking (ok (ct, false)))
                    (log-Sim _ Move.store_logged) λ _. Sim-pure V name cfg role ct

  deleted-moves :
      (e : Error) (r : Outcome (Unit {0}))
      → Move name role
          (purging e)
          (deleted r)
          (on_error r (λ f. unlocking (fail f)) (λ _. unlocking (fail e)))
  deleted-moves e (ok _) = Move.purge_done
  deleted-moves e (fail f) = Move.purge_fails

  fail_closed-Sim : (e : Error) → Runs (after_failure e) (fail_closed V name e) unlocking
  unfolding fail_closed
  fail_closed-Sim e = elim (Bool-cases (is_transient_mint_error e)) [
    | inl t ↦ rw t (Sim-raise V name cfg role e)
    | inr f ↦ rw f (
        Sim-bind V name cfg role _ _ (λ _. unlocking (fail e))
          (Sim-act V name cfg role _ deleted (λ s. refl) (deleted-moves e))
          (λ _. Sim-raise V name cfg role e))
  ]

  -- Where a failure goes with an unexpired cached token at hand.
  abbrev pub with_token : Error → CachedToken → Pc
  with_token e ct = if is_transient_mint_error e then degraded e ct else purging e

  serve_or_fail-Sim :
      (e : Error) (o : Option CachedToken)
      → Runs (on_nil o (after_failure e) (with_token e)) (serve_or_fail V name e o) unlocking
  unfolding serve_or_fail
  serve_or_fail-Sim e none = fail_closed-Sim e
  serve_or_fail-Sim e (some ct) = elim (Bool-cases (is_transient_mint_error e)) [
    | inl t ↦ rw t (
        Sim-bind V name cfg role _ _ (λ _. unlocking (ok (ct, true)))
          (log-Sim _ Move.degraded_logged) (λ _. Sim-pure V name cfg role (ct, true)))
    | inr f ↦ let closed = fail_closed-Sim e in rw f (rw f at closed)
  ]

  failed-moves :
      (e : Error) (r : Outcome (Option CachedToken))
      → Move name role
          (mint_failed e)
          (loaded r)
          (Served V name cfg role (after_failure e) (failed_check e) (λ _. after_failure e) r)
  failed-moves e (fail f) = Move.failed_error
  failed-moves e (ok none) = Move.failed_miss
  failed-moves e (ok (some ct)) = Move.failed_hit

  failed_check-moves :
      (e : Error) (ct : CachedToken) (t : Time)
      → Move name role
          (failed_check e ct)
          (read_clock t)
          (if before t ct.expires_at then with_token e ct else after_failure e)
  failed_check-moves e ct t = elim (Bool-cases (before t ct.expires_at)) [
    | inr late ↦ rw late (Move.failed_expired late)
    | inl valid ↦ elim (Bool-cases (is_transient_mint_error e)) [
      | inl may_pass ↦ rw (valid, may_pass) (Move.failed_valid valid may_pass)
      | inr definitive ↦ rw (valid, definitive) (Move.failed_for_good valid definitive)
    ]
  ]

  pub after_mint-Sim :
      (r : Outcome CachedToken) → Runs (after_minting r) (after_mint V name r) unlocking
  unfolding after_mint
  after_mint-Sim (ok ct) = Sim-pure V name cfg role (ct, false)
  after_mint-Sim (fail e) =
      Sim-bind V name cfg role _ _ (λ o. on_nil o (after_failure e) (with_token e))
        (unexpired_cached-Sim V name cfg role (mint_failed e) (after_failure e) (failed_check e)
          (with_token e) (λ f. unlocking (fail f)) (failed-moves e) (failed_check-moves e))
        (serve_or_fail-Sim e)
