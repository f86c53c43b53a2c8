-- ===== src/Action/Triples.antt =====
-- What engine code guarantees when it returns, one rule for each way to build code.
use vault_plugin_secrets_sal.Common.{
  ◌≡◌, Bool, true, false, Option, none, some, on_nil, if◌then◌else◌,
}
use vault_plugin_secrets_sal.Errors.{Error, Outcome, ok}
use vault_plugin_secrets_sal.Platform.{Platform}
use vault_plugin_secrets_sal.Action.{Action, State, pure, raise, lift, attempt, ◌>>=◌}
use vault_plugin_secrets_sal.Action.Keeps.{Keeps}
use vault_plugin_secrets_sal.Action.Inversion.{bind-ok}

-- From a state with `P`, where `m` returns a result, `Q` holds of it and of the state after.
pub record Triple {V : Platform} {A : Type 0} (P : State V → Type 0) (m : Action V A)
    (Q : A → State V → Type 0) : Type 0 where
  pub at : (s : State V) → P s → {a : A} → (m s).0 ≡ ok a → Q a (m s).1

-- Nothing is asked, or promised.
abbrev pub Any : {V : Platform} → State V → Type 0
Any s = Unit {0}

module _ {V : Platform} {A : Type 0} {P : State V → Type 0} where
  pub Triple-Any : (m : Action V A) → Triple P m (λ _. Any)
  Triple-Any m = record { at = λ s p h. tt }

  pub Triple-Keeps : (m : Action V A) → Keeps P m → Triple P m (λ _. P)
  Triple-Keeps m k = record { at = λ s p h. k.at s p }

  module _ {Q : A → State V → Type 0} where
    pub Triple-pure : (a : A) → ((s : State V) → P s → Q a s) → Triple P (pure a) Q
    unfolding pure
    Triple-pure a f = record { at = λ s p {a = b} h. let same : a ≡ b = cc in rw (← same) (f s p) }

    pub Triple-raise : (e : Error) → Triple P (raise e) Q
    unfolding raise
    Triple-raise e = record { at = λ s p h. cc }

    pub Triple-lift :
        (r : Outcome A) → ((s : State V) → P s → (a : A) → r ≡ ok a → Q a s) → Triple P (lift r) Q
    unfolding lift
    Triple-lift r f = record { at = λ s p {a} h. f s p a h }

    pub Triple-if :
        (b : Bool) (m n : Action V A)
        → Triple P m Q
        → Triple P n Q
        → Triple P (if b then m else n) Q
    Triple-if true m n tm tn = tm
    Triple-if false m n tm tn = tn

    pub Triple-option :
        {X : Type 0} (o : Option X) (m : Action V A) (f : X → Action V A)
        → Triple P m Q
        → ((x : X) → Triple P (f x) Q)
        → Triple P (on_nil o m f) Q
    Triple-option none m f tm tf = tm
    Triple-option (some x) m f tm tf = tf x

    -- A failure is a result like any other to what comes after.
    pub Triple-attempt :
        (m : Action V A) → Triple P m Q → Triple P (attempt m) (λ r s. (a : A) → r ≡ ok a → Q a s)
    unfolding attempt
    Triple-attempt m t = record {
      at = λ s p {a = r} h a e. t.at s p (let same : (m s).0 ≡ r = cc in cc);
    }

    pub Triple-bind :
        {B : Type 0} {R : B → State V → Type 0} (m : Action V B) (f : B → Action V A)
        → Triple P m R
        → ((b : B) → Triple (R b) (f b) Q)
        → Triple P (m >>= f) Q
    Triple-bind m f tm tf = record {
      at = λ s p {a} h.
          let (b, got, e) = bind-ok m f s h in rw e ((tf b).at (m s).1 (tm.at s p got) (rw e at h));
    }
