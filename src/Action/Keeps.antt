-- ===== src/Action/Keeps.antt =====
-- Properties of the state that engine code keeps, one rule for each way to build code.
use vault_plugin_secrets_sal.Common.{
  ◌≡◌, refl, Bool, true, false, Option, none, some, on_nil, if◌then◌else◌,
}
use vault_plugin_secrets_sal.Errors.{Error, Outcome, ok, fail, on_error}
use vault_plugin_secrets_sal.Platform.{Platform}
use vault_plugin_secrets_sal.Action.{Action, State, pure, raise, lift, attempt, continue, ◌>>=◌}

-- `m` keeps `P`, whether it returns or fails.
pub record Keeps {V : Platform} {A : Type 0} (P : State V → Type 0) (m : Action V A) : Type 0 where
  pub at : (s : State V) → P s → P (m s).1

module _ {V : Platform} {P : State V → Type 0} {A : Type 0} where
  pub Keeps-pure : (a : A) → Keeps P (pure a)
  unfolding pure
  Keeps-pure a = record { at = λ s h. h }

  pub Keeps-raise : (e : Error) → Keeps P (raise {A = A} e)
  unfolding raise
  Keeps-raise e = record { at = λ s h. h }

  pub Keeps-lift : (r : Outcome A) → Keeps P (lift r)
  unfolding lift
  Keeps-lift r = record { at = λ s h. h }

  pub Keeps-attempt : (m : Action V A) → Keeps P m → Keeps P (attempt m)
  unfolding attempt
  Keeps-attempt m k = record { at = k.at }

  pub Keeps-if :
      (b : Bool) (m n : Action V A) → Keeps P m → Keeps P n → Keeps P (if b then m else n)
  Keeps-if true m n km kn = km
  Keeps-if false m n km kn = kn

  -- A match on a result.
  pub Keeps-option :
      {X : Type 0} (o : Option X) (m : Action V A) (f : X → Action V A)
      → Keeps P m
      → ((x : X) → Keeps P (f x))
      → Keeps P (on_nil o m f)
  Keeps-option none m f km kf = km
  Keeps-option (some x) m f km kf = kf x

  pub Keeps-outcome :
      {X : Type 0} (r : Outcome X) (g : Error → Action V A) (f : X → Action V A)
      → ((e : Error) → Keeps P (g e))
      → ((x : X) → Keeps P (f x))
      → Keeps P (on_error r g f)
  Keeps-outcome (ok x) g f kg kf = kf x
  Keeps-outcome (fail e) g f kg kf = kg e

  -- The branches may use what the test found.
  pub Keeps-option_eq :
      {X : Type 0} (o : Option X) (m : Action V A) (f : X → Action V A)
      → (o ≡ none → Keeps P m)
      → ((x : X) → o ≡ some x → Keeps P (f x))
      → Keeps P (on_nil o m f)
  Keeps-option_eq none m f km kf = km refl
  Keeps-option_eq (some x) m f km kf = kf x refl

module _ {V : Platform} {P : State V → Type 0} {A B : Type 0} where
  -- What follows a result may use that it is no failure.
  pub Keeps-bind-lift :
      (r : Outcome A) (f : A → Action V B)
      → ((a : A) → r ≡ ok a → Keeps P (f a))
      → Keeps P (lift r >>= f)
  unfolding ◌>>=◌
  Keeps-bind-lift (ok a) f kf = record { at = (kf a refl).at }
  Keeps-bind-lift (fail e) f kf = record { at = λ s h. h }

  Keeps-continue :
      (r : Outcome A) (f : A → Action V B)
      → ((a : A) → Keeps P (f a))
      → (s : State V) → P s
      → P (continue r f s).1
  Keeps-continue (ok a) f kf s h = (kf a).at s h
  Keeps-continue (fail e) f kf s h = h

  pub Keeps-bind :
      (m : Action V A) (f : A → Action V B)
      → Keeps P m
      → ((a : A) → Keeps P (f a))
      → Keeps P (m >>= f)
  unfolding ◌>>=◌
  Keeps-bind m f km kf = record { at = λ s h. Keeps-continue (m s).0 f kf (m s).1 (km.at s h) }

  -- What follows an action may use what its result can be.
  pub Keeps-bind-result :
      (m : Action V A) (f : A → Action V B)
      → Keeps P m
      → ((a : A) (s : State V) → (m s).0 ≡ ok a → Keeps P (f a))
      → Keeps P (m >>= f)
  unfolding ◌>>=◌
  Keeps-bind-result m f km kf = record { at = λ s h. after (m s).0 s refl (km.at s h) }
    where
      after : (r : Outcome A) (s : State V) → (m s).0 ≡ r → P (m s).1 → P (continue r f (m s).1).1
      after (ok a) s e h = (kf a s e).at (m s).1 h
      after (fail e) s _ h = h

pub ruleset keeps_rules = (
  Keeps-pure, Keeps-raise, Keeps-lift, Keeps-attempt, Keeps-if, Keeps-bind, Keeps-option,
  Keeps-outcome,
)
