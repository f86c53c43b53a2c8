-- ===== src/Action.antt =====
-- Engine code: it may fail with a Go error, calls the platform, and keeps the process's RSA key
-- cache. What was done before a failure stays done, so the state comes back beside the error too.
pub mod Keeps
pub mod Inversion
pub mod Triples
pub mod Views
pub mod Yields
pub mod Ends
use vault_plugin_secrets_sal.Common.{String, List}
use vault_plugin_secrets_sal.Errors.{Error, Outcome, ok, fail}
use vault_plugin_secrets_sal.Platform.{Platform}

-- `rsa_key_cache` is the package variable `rsaKeyCache` of jwt.go, the latest entry first.
pub record State (V : Platform) : Type 0 where
  pub world : V.World
  pub rsa_key_cache : List (String × V.Key)

abbrev pub Action : Platform → Type 0 → Type 0
Action V A = State V → Outcome A × State V

module _ {V : Platform} {A : Type 0} where
  unfoldable pub pure : A → Action V A
  pure a s = (ok a, s)

  unfoldable pub raise : Error → Action V A
  raise e s = (fail e, s)

  unfoldable pub lift : Outcome A → Action V A
  lift r s = (r, s)

  -- `if err := …; err != nil { … }` where the error is not passed on.
  unfoldable pub attempt : Action V A → Action V (Outcome A)
  attempt m s = (ok (m s).0, (m s).1)

-- The platform is written out: it cannot be told from the type of one call.
module _ (V : Platform) {A : Type 0} where
  -- A call of the platform that cannot fail, and one that can.
  unfoldable pub call : (V.World → A × V.World) → Action V A
  call f s = (ok (f s.world).0, record s { world = (f s.world).1 })

  unfoldable pub try_call : (V.World → Outcome A × V.World) → Action V A
  try_call f s = ((f s.world).0, record s { world = (f s.world).1 })

module _ {V : Platform} {A B : Type 0} where
  abbrev pub continue : Outcome A → (A → Action V B) → Action V B
  continue (ok a) f s = f a s
  continue (fail e) f s = (fail e, s)

  infixl 10 ◌>>=◌ ◌>>◌
  -- To unfold this is to unfold the ways to build an action.
  unfoldable pub ◌>>=◌ : Action V A → (A → Action V B) → Action V B
  unfolding pure raise lift call try_call attempt
  ◌>>=◌ m f s = continue (m s).0 f (m s).1

  abbrev pub ◌>>◌ : Action V A → Action V B → Action V B
  m >> n = m >>= λ _. n
