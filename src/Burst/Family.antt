-- ===== src/Burst/Family.antt =====
-- What stands at each request: a function of its number, changed at one place.
use mathlib.Core.Logic.{ite}
use native.Mathlib.Decide.{ℕ_discrete}
use vault_plugin_secrets_sal.Common.{ℕ, ◌≡◌, ◌≢◌, arith}

module _ {ℓ} {A : Type ℓ} (f : ℕ → A) (i : ℕ) (a : A) where
  abbrev pub update : ℕ → A
  update j = ite (ℕ_discrete i j) a (f j)

  pub update_self : update i ≡ a
  update_self = ground arith

  pub update_ne : (j : ℕ) → i ≢ j → update j ≡ f j
  update_ne j h = ground arith
