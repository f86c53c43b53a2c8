-- ===== src/Creds/Moves/Simulation.antt =====
-- The sequential `issue_token` takes exactly the moves of `Moves`, with the platform's answers.
use vault_plugin_secrets_sal.Common.{
  String, ◌≡◌, Bool, true, false, Option, none, some, on_nil, if◌then◌else◌,
}
use vault_plugin_secrets_sal.Errors.{Error, Outcome, ok, fail, on_error}
use vault_plugin_secrets_sal.Config.{Config}
use vault_plugin_secrets_sal.Role.{Role}
use vault_plugin_secrets_sal.Platform.{Platform}
use vault_plugin_secrets_sal.Action.{
  Action, State, pure, raise, lift, call, attempt, continue, ◌>>=◌,
}
use vault_plugin_secrets_sal.Storage.{get_cached_token, put_cached_token, delete_cached_token}
use vault_plugin_secrets_sal.Creds.{mint_token}
use vault_plugin_secrets_sal.Creds.Moves.{
  Pc, Event, loaded, read_clock, tried_lock, took_lock, requested, put_token, logged, deleted,
  released, Move,
}

module _ (V : Platform) (name : String) (cfg : Config) (role : Role) where
  -- The platform gives the answer of the event, and goes from one state to the other.
  abbrev pub Performs : Event → State V → State V → Type 0
  Performs (loaded r) s t = get_cached_token V name s ≡ (r, t)
  Performs (read_clock now) s t = call V V.now s ≡ (ok now, t)
  Performs (tried_lock b) s t = call V (V.try_lock name) s ≡ (ok b, t)
  Performs took_lock s t = call V (V.lock name) s ≡ (ok tt, t)
  Performs (requested r) s t = mint_token V cfg role s ≡ (r, t)
  Performs (put_token ct r) s t = put_cached_token V name ct s ≡ (r, t)
  Performs (logged l) s t = call V (V.log l) s ≡ (ok tt, t)
  Performs (deleted r) s t = delete_cached_token V name s ≡ (r, t)
  Performs released s t = call V (V.unlock name) s ≡ (ok tt, t)

  -- A request that runs with nothing in between.
  pub data Steps (q : Pc) (t : State V) : Pc → State V → Type 0 where
    stop : Steps q t q t
    next :
        {p p' : Pc} {s s' : State V} {e : Event}
        → Move name role p e p'
        → Performs e s s'
        → Steps q t p' s'
        → Steps q t p s

  pub Steps-trans :
      {q r : Pc} {t u : State V} {p : Pc} {s : State V}
      → Steps r u p s
      → Steps q t r u
      → Steps q t p s
  Steps-trans stop b = b
  Steps-trans (next m e a) b = next m e (Steps-trans a b)

  -- From `p`, the code `m` goes where its outcome says.
  pub record Sim {A : Type 0} (p : Pc) (m : Action V A) (k : Outcome A → Pc) : Type 0 where
    pub at : (s : State V) → Steps (k (m s).0) (m s).1 p s

  module _ {A : Type 0} {k : Outcome A → Pc} where
    pub Sim-act :
        {p : Pc} (m : Action V A) (e : Outcome A → Event)
        → ((s : State V) → Performs (e (m s).0) s (m s).1)
        → ((r : Outcome A) → Move name role p (e r) (k r))
        → Sim p m k
    Sim-act m e does moves = record { at = λ s. next (moves (m s).0) (does s) stop }

    pub Sim-call :
        {p : Pc} (f : V.World → A × V.World) (e : A → Event)
        → ((s : State V) → Performs (e (f s.world).0) s (call V f s).1)
        → ((a : A) → Move name role p (e a) (k (ok a)))
        → Sim p (call V f) k
    unfolding call
    Sim-call f e does moves = record { at = λ s. next (moves (f s.world).0) (does s) stop }

    pub Sim-pure : (a : A) → Sim (k (ok a)) (pure a) k
    unfolding pure
    Sim-pure a = record { at = λ s. stop }

    pub Sim-raise : (e : Error) → Sim (k (fail e)) (raise e) k
    unfolding raise
    Sim-raise e = record { at = λ s. stop }

    pub Sim-lift : (r : Outcome A) → Sim (k r) (lift r) k
    unfolding lift
    Sim-lift r = record { at = λ s. stop }

    Sim-continue :
        {B : Type 0} (r : Outcome B) (f : B → Action V A) (g : B → Pc) (s : State V)
        → ((b : B) → Sim (g b) (f b) k)
        → Steps (k (continue r f s).0) (continue r f s).1 (on_error r (λ e. k (fail e)) g) s
    Sim-continue (ok b) f g s h = (h b).at s
    Sim-continue (fail e) f g s h = stop

    -- After a failure of the first part the rest is left out.
    pub Sim-bind :
        {B : Type 0} {p : Pc} (m : Action V B) (f : B → Action V A) (g : B → Pc)
        → Sim p m (λ r. on_error r (λ e. k (fail e)) g)
        → ((b : B) → Sim (g b) (f b) k)
        → Sim p (m >>= f) k
    unfolding ◌>>=◌
    Sim-bind m f g h rest = record {
      at = λ s. Steps-trans (h.at s) (Sim-continue (m s).0 f g (m s).1 rest);
    }

    pub Sim-option :
        {X : Type 0} (o : Option X) (m : Action V A) (f : X → Action V A) (p : Pc) (g : X → Pc)
        → Sim p m k
        → ((x : X) → Sim (g x) (f x) k)
        → Sim (on_nil o p g) (on_nil o m f) k
    Sim-option none m f p g a b = a
    Sim-option (some x) m f p g a b = b x

    pub Sim-if :
        (b : Bool) (m n : Action V A) (p q : Pc)
        → Sim p m k
        → Sim q n k
        → Sim (if b then p else q) (if b then m else n) k
    Sim-if true m n p q a c = a
    Sim-if false m n p q a c = c

  -- What is attempted cannot fail.
  pub Sim-attempt :
      {A : Type 0} {p : Pc} {k : Outcome (Outcome A) → Pc} (m : Action V A)
      → Sim p m (λ r. k (ok r))
      → Sim p (attempt m) k
  unfolding attempt
  Sim-attempt m h = record { at = h.at }
