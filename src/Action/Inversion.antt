-- ===== src/Action/Inversion.antt =====
-- What a successful chain of actions says of its parts.
use vault_plugin_secrets_sal.Common.{◌≡◌, refl}
use vault_plugin_secrets_sal.Errors.{Outcome, ok, fail}
use vault_plugin_secrets_sal.Platform.{Platform}
use vault_plugin_secrets_sal.Action.{Action, State, continue, ◌>>=◌}

module _ {V : Platform} {A B : Type 0} where
  continue-ok :
      (r : Outcome A) (f : A → Action V B) (s : State V) {b : B}
      → (continue r f s).0 ≡ ok b
      → (a : A) × (r ≡ ok a) × (continue r f s ≡ f a s)
  continue-ok (ok a) f s h = (a, refl, refl)
  continue-ok (fail e) f s h = cc

  -- A chain that succeeds goes through a result of its first part.
  pub bind-ok :
      (m : Action V A) (f : A → Action V B) (s : State V) {b : B}
      → ((m >>= f) s).0 ≡ ok b
      → (a : A) × ((m s).0 ≡ ok a) × ((m >>= f) s ≡ f a (m s).1)
  unfolding ◌>>=◌
  bind-ok m f s h = continue-ok (m s).0 f (m s).1 h
