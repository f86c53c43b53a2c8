-- ===== src/Action/Yields.antt =====
-- Engine code that keeps a property of the state whether it returns or fails, and that from a state
-- with it returns only certain results.
use vault_plugin_secrets_sal.Common.{
  ◌≡◌, refl, Bool, true, false, Option, none, some, on_nil, if◌then◌else◌,
}
use vault_plugin_secrets_sal.Errors.{Error, Outcome, ok, fail}
use vault_plugin_secrets_sal.Platform.{Platform}
use vault_plugin_secrets_sal.Action.{
  Action, State, pure, raise, lift, attempt, continue, ◌>>=◌, ◌>>◌,
}
use vault_plugin_secrets_sal.Action.Keeps.{
  Keeps, Keeps-pure, Keeps-raise, Keeps-lift, Keeps-attempt,
}
use vault_plugin_secrets_sal.Action.Inversion.{bind-ok}

module _ {V : Platform} (P : State V → Type 0) where
  pub record Yields {A : Type 0} (m : Action V A) (R : A → Type 0) : Type 0 where
    pub keeps : Keeps P m
    pub result : (s : State V) → P s → {a : A} → (m s).0 ≡ ok a → R a

module _ {V : Platform} {P : State V → Type 0} {A : Type 0} where
  -- Of the result nothing is said.
  pub Yields-Keeps : (m : Action V A) → Keeps P m → Yields P m (λ _. Unit {0})
  Yields-Keeps m k = record { keeps = k; result = λ s h e. tt }

  module _ {R : A → Type 0} where
    pub Yields-pure : (a : A) → R a → Yields P (pure a) R
    unfolding pure
    Yields-pure a r = record {
      keeps = Keeps-pure a;
      result = λ s h {a = b} e. let same : a ≡ b = cc in rw (← same) r;
    }

    pub Yields-raise : (e : Error) → Yields P (raise e) R
    unfolding raise
    Yields-raise e = record { keeps = Keeps-raise e; result = λ s h f. cc }

    pub Yields-lift : (r : Outcome A) → ((a : A) → r ≡ ok a → R a) → Yields P (lift r) R
    unfolding lift
    Yields-lift r f = record { keeps = Keeps-lift r; result = λ s h {a} e. f a e }

    pub Yields-attempt :
        (m : Action V A) → Yields P m R → Yields P (attempt m) (λ r. (a : A) → r ≡ ok a → R a)
    unfolding attempt
    Yields-attempt m y = record {
      keeps = Keeps-attempt m y.keeps;
      result = λ s h {a = r} e a f. y.result s h (let same : (m s).0 ≡ r = cc in cc);
    }

    pub Yields-if :
        (b : Bool) (m n : Action V A)
        → Yields P m R
        → Yields P n R
        → Yields P (if b then m else n) R
    Yields-if true m n ym yn = ym
    Yields-if false m n ym yn = yn

    pub Yields-option :
        {X : Type 0} (o : Option X) (m : Action V A) (f : X → Action V A)
        → (o ≡ none → Yields P m R)
        → ((x : X) → o ≡ some x → Yields P (f x) R)
        → Yields P (on_nil o m f) R
    Yields-option none m f ym yf = ym refl
    Yields-option (some x) m f ym yf = yf x refl

    -- What follows may use what the result can be.
    pub Yields-bind :
        {B : Type 0} {S : B → Type 0} (m : Action V B) (f : B → Action V A)
        → Yields P m S
        → ((b : B) → S b → Yields P (f b) R)
        → Yields P (m >>= f) R
    unfolding ◌>>=◌
    Yields-bind {B = B} m f ym yf = record {
      keeps = record { at = λ s h. after (m s).0 s h refl (ym.keeps.at s h) };
      result = λ s h {a} e.
          let (b, got, same) = bind-ok m f s e in
          (yf b (ym.result s h got)).result (m s).1 (ym.keeps.at s h) (rw same at e);
    }
      where
        after :
            (r : Outcome B) (s : State V)
            → P s
            → (m s).0 ≡ r
            → P (m s).1
            → P (continue r f (m s).1).1
        after (ok b) s h e k = (yf b (ym.result s h e)).keeps.at (m s).1 k
        after (fail e) s h _ k = k

module _ {V : Platform} {P : State V → Type 0} {A B : Type 0} {R : A → Type 0} where
  pub Yields-then :
      (m : Action V B) (n : Action V A) → Keeps P m → Yields P n R → Yields P (m >> n) R
  Yields-then m n k y = Yields-bind m _ (Yields-Keeps m k) λ _ _. y
