-- ===== src/Creds/Moves/Lookups.antt =====
-- Reading the cached token, on the fast path, under the lock and after a failure, by the moves of a
-- request.
use vault_plugin_secrets_sal.Common.{
  String, refl, Bool, true, false, Option, none, some, on_nil, if◌then◌else◌,
}
use vault_plugin_secrets_sal.Errors.{Error, Outcome, ok, fail, on_error}
use vault_plugin_secrets_sal.Config.{Config}
use vault_plugin_secrets_sal.Role.{Role}
use vault_plugin_secrets_sal.Token.{Time, CachedToken, before, fresh}
use vault_plugin_secrets_sal.Platform.{Platform}
use vault_plugin_secrets_sal.Action.{Action, pure, call, ◌>>=◌}
use vault_plugin_secrets_sal.Storage.{get_cached_token}
use vault_plugin_secrets_sal.Creds.{
  fresh_or_none, fresh_cached, unexpired_or_none, unexpired_cached,
}
use vault_plugin_secrets_sal.Creds.Moves.{Pc, loaded, read_clock, Move}
use vault_plugin_secrets_sal.Creds.Moves.Simulation.{
  Sim, Sim-act, Sim-call, Sim-pure, Sim-bind, Sim-attempt,
}

module _ (V : Platform) (name : String) (cfg : Config) (role : Role) where
  abbrev pub IssueSim : {A : Type 0} → Pc → Action V A → (Outcome A → Pc) → Type 0
  IssueSim = Sim V name cfg role

  -- What the code does with a token that was read: it serves it, or goes on as without it.
  abbrev pub Served : Pc → (CachedToken → Pc) → (Error → Pc) → Outcome (Option CachedToken) → Pc
  Served miss hit error r = on_error r error (λ o. on_nil o miss hit)

  pub load-Sim :
      {p : Pc} {k : Outcome (Option CachedToken) → Pc}
      → ((r : Outcome (Option CachedToken)) → Move name role p (loaded r) (k r))
      → IssueSim p (get_cached_token V name) k
  load-Sim moves = Sim-act V name cfg role _ loaded (λ s. refl) moves

  pub clock-Sim :
      {A : Type 0} {p : Pc} {k : Outcome A → Pc} (f : Time → Action V A) (g : Time → Pc)
      → ((t : Time) → Move name role p (read_clock t) (g t))
      → ((t : Time) → IssueSim (g t) (f t) k)
      → IssueSim p (call V V.now >>= f) k
  unfolding call
  clock-Sim f g moves rest =
      Sim-bind V name cfg role _ f g (Sim-call V name cfg role V.now read_clock (λ s. refl) moves)
        rest

  pick-Sim :
      (b : Bool) (ct : CachedToken) (miss : Pc) (hit : CachedToken → Pc) (error : Error → Pc)
      → IssueSim
          (if b then hit ct else miss)
          (pure (if b then some ct else none))
          (Served miss hit error)
  pick-Sim true ct miss hit error = Sim-pure V name cfg role _
  pick-Sim false ct miss hit error = Sim-pure V name cfg role _

  module _ (p miss : Pc) (check hit : CachedToken → Pc) (error : Error → Pc)
      (moves : (r : Outcome (Option CachedToken))
        → Move name role p (loaded r) (Served miss check error r)) where
    fresh_or_none-Sim :
        ((ct : CachedToken) (t : Time)
          → Move name role
              (check ct)
              (read_clock t)
              (if fresh ct t role.renew_skew then hit ct else miss))
        → (o : Option CachedToken)
        → IssueSim (on_nil o miss check) (fresh_or_none V role o) (Served miss hit error)
    unfolding fresh_or_none
    fresh_or_none-Sim checks none = Sim-pure V name cfg role _
    fresh_or_none-Sim checks (some ct) =
        clock-Sim _ (λ t. if fresh ct t role.renew_skew then hit ct else miss) (checks ct)
          λ t. pick-Sim (fresh ct t role.renew_skew) ct miss hit error

    pub fresh_cached-Sim :
        ((ct : CachedToken) (t : Time)
          → Move name role
              (check ct)
              (read_clock t)
              (if fresh ct t role.renew_skew then hit ct else miss))
        → IssueSim p (fresh_cached V name role) (Served miss hit error)
    unfolding fresh_cached
    fresh_cached-Sim checks =
        Sim-bind V name cfg role _ _ (λ o. on_nil o miss check) (load-Sim moves)
          (fresh_or_none-Sim checks)

  module _ (p miss : Pc) (check hit : CachedToken → Pc) (error : Error → Pc)
      (moves : (r : Outcome (Option CachedToken))
        → Move name role p (loaded r) (Served miss check (λ _. miss) r))
      (checks : (ct : CachedToken) (t : Time)
        → Move name role
            (check ct)
            (read_clock t)
            (if before t ct.expires_at then hit ct else miss)) where
    unexpired_or_none-Sim :
        (r : Outcome (Option CachedToken))
        → IssueSim (Served miss check (λ _. miss) r) (unexpired_or_none V r) (Served miss hit error)
    unfolding unexpired_or_none
    unexpired_or_none-Sim (fail e) = Sim-pure V name cfg role _
    unexpired_or_none-Sim (ok none) = Sim-pure V name cfg role _
    unexpired_or_none-Sim (ok (some ct)) =
        clock-Sim _ (λ t. if before t ct.expires_at then hit ct else miss) (checks ct)
          λ t. pick-Sim (before t ct.expires_at) ct miss hit error

    pub unexpired_cached-Sim : IssueSim p (unexpired_cached V name) (Served miss hit error)
    unfolding unexpired_cached
    unexpired_cached-Sim =
        Sim-bind V name cfg role _ _ (Served miss check (λ _. miss))
          (Sim-attempt V name cfg role _ (load-Sim moves)) unexpired_or_none-Sim
