-- ===== src/Action/Views.antt =====
-- What engine code gives and leaves behind, as far as a view of the world shows.
use vault_plugin_secrets_sal.Common.{◌≡◌, refl}
use vault_plugin_secrets_sal.Errors.{Error, Outcome, ok, fail}
use vault_plugin_secrets_sal.Platform.{Platform}
use vault_plugin_secrets_sal.Action.{Action, State, pure, raise, lift, call, attempt, ◌>>=◌}

module _ {V : Platform} {X : Type 0} (see : V.World → X) where
  -- From a state whose view is `m`, the action gives `o` and leaves one whose view is `n`.
  pub record Goes {A : Type 0} (m : X) (act : Action V A) (o : Outcome A) (n : X) : Type 0 where
    pub at : (s : State V) → see s.world ≡ m → ((act s).0 ≡ o) × (see (act s).1.world ≡ n)

  module _ {A : Type 0} (m : X) where
    pub Goes-pure : (a : A) → Goes m (pure a) (ok a) m
    unfolding pure
    Goes-pure a = record { at = λ s h. (refl, h) }

    pub Goes-raise : (e : Error) → Goes {A = A} m (raise e) (fail e) m
    unfolding raise
    Goes-raise e = record { at = λ s h. (refl, h) }

    pub Goes-lift : (o : Outcome A) → Goes m (lift o) o m
    unfolding lift
    Goes-lift o = record { at = λ s h. (refl, h) }

    pub Goes-bind :
        {B : Type 0} (act : Action V B) (f : B → Action V A) {b : B} {o : Outcome A} (n k : X)
        → Goes m act (ok b) n
        → Goes n (f b) o k
        → Goes m (act >>= f) o k
    unfolding ◌>>=◌
    Goes-bind act f n k first next = record {
      at = λ s h. let (got, there) = first.at s h in rw got (next.at (_) there);
    }

    -- A call that leaves the server alone, whatever it gives.
    pub Goes-any :
        {B : Type 0} (g : V.World → B × V.World) (f : B → Action V A) {o : Outcome A} (k : X)
        → ((w : V.World) → see (g w).1 ≡ see w)
        → ((b : B) → Goes m (f b) o k)
        → Goes m (call V g >>= f) o k
    unfolding ◌>>=◌ call
    Goes-any g f k quiet next = record {
      at = λ s h. (next (g s.world).0).at _ (rw (quiet s.world) h);
    }

    pub Goes-call :
        (g : V.World → A × V.World) (a : A) (n : X)
        → ((w : V.World) → see w ≡ m → ((g w).0 ≡ a) × (see (g w).1 ≡ n))
        → Goes m (call V g) (ok a) n
    unfolding call
    Goes-call g a n step = record {
      at = λ s h. let (got, there) = step s.world h in (rw got, there);
    }

    pub Goes-attempt :
        {act : Action V A} {o : Outcome A} {n : X} → Goes m act o n → Goes m (attempt act) (ok o) n
    unfolding attempt
    Goes-attempt g = record { at = λ s h. let (got, there) = g.at s h in (rw got refl, there) }

    -- What the rest makes of the state that a first part leaves.
    pub Goes-before :
        {B : Type 0} (act : Action V B) (f : B → Action V A) {b : B} (n : X) (R : State V → Type 0)
        → Goes m act (ok b) n
        → ((t : State V) → see t.world ≡ n → R (f b t).1)
        → (s : State V) → see s.world ≡ m
        → R ((act >>= f) s).1
    unfolding ◌>>=◌
    Goes-before act f n R first rest s h =
        let (got, there) = first.at s h in rw (◌>>=◌, got) (rest (act s).1 there)
