-- ===== src/Action/Ends.antt =====
-- Engine code that reads before it acts: the property that its start has may be lost at the end.
use vault_plugin_secrets_sal.Common.{◌≡◌, refl, Option, none, some, on_nil}
use vault_plugin_secrets_sal.Errors.{Outcome, ok, fail}
use vault_plugin_secrets_sal.Platform.{Platform}
use vault_plugin_secrets_sal.Action.{Action, State, pure, continue, ◌>>=◌}
use vault_plugin_secrets_sal.Action.Keeps.{Keeps, Keeps-pure}
use vault_plugin_secrets_sal.Action.Yields.{Yields}

-- From a state with `P`, code leaves one with `Q`, whether it returns or fails.
pub record Ends {V : Platform} {A : Type 0} (P : State V → Type 0) (m : Action V A)
    (Q : State V → Type 0) : Type 0 where
  pub at : (s : State V) → P s → Q (m s).1

pub Ends-Keeps :
    {V : Platform} {A : Type 0} {P Q : State V → Type 0}
    → ((s : State V) → P s → Q s)
    → (m : Action V A) → Keeps Q m
    → Ends P m Q
Ends-Keeps weaker m k = record { at = λ s p. k.at s (weaker s p) }

module _ {V : Platform} {A B : Type 0} {P Q : State V → Type 0}
    (weaker : (s : State V) → P s → Q s) where
  pub Ends-option :
      (o : Option B) (a : A) (f : B → Action V A)
      → ((b : B) → o ≡ some b → Ends P (f b) Q)
      → Ends P (on_nil o (pure a) f) Q
  Ends-option none a f e = Ends-Keeps weaker _ (Keeps-pure a)
  Ends-option (some b) a f e = e b refl

  pub Ends-bind :
      {R : B → Type 0} (m : Action V B) (f : B → Action V A)
      → Yields P m R
      → ((b : B) → R b → Ends P (f b) Q)
      → Ends P (m >>= f) Q
  unfolding ◌>>=◌
  Ends-bind m f y e = record { at = λ s p. after (m s).0 s p refl (y.keeps.at s p) }
    where
      after :
          (r : Outcome B) (s : State V) → P s → (m s).0 ≡ r → P (m s).1 → Q (continue r f (m s).1).1
      after (ok b) s p got q = (e b (y.result s p got)).at (m s).1 q
      after (fail _) s p _ q = weaker (m s).1 q

pub Keeps-both :
    {V : Platform} {A : Type 0} {P Q : State V → Type 0} {m : Action V A}
    → Keeps P m
    → Keeps Q m
    → Keeps (λ s. P s × Q s) m
Keeps-both k l = record { at = λ s (p, q). (k.at s p, l.at s q) }

-- The first part takes one property to another.
pub Ends-then :
    {V : Platform} {A B : Type 0} {P R Q : State V → Type 0}
    → ((s : State V) → R s → Q s)
    → (m : Action V B) (f : B → Action V A) → Ends P m R
    → ((b : B) → Ends R (f b) Q)
    → Ends P (m >>= f) Q
unfolding ◌>>=◌
Ends-then {V = V} {A = A} {B = B} {R = R} {Q = Q} weaker m f first rest = record {
  at = λ s p. after (m s).0 (m s).1 (first.at s p);
}
  where
    after : (r : Outcome B) (s : State V) → R s → Q (continue r f s).1
    after (ok b) s h = (rest b).at s h
    after (fail e) s h = weaker s h
