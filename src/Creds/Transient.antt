-- ===== src/Creds/Transient.antt =====
-- What a failure to mint that may pass does (path_creds.go `issueToken`): the cached token stays,
-- and is served until it expires.
use vault_plugin_secrets_sal.Common.{String, ◌≡◌, refl, true, Option, none, some}
use vault_plugin_secrets_sal.Errors.{Error, ok, fail}
use vault_plugin_secrets_sal.Token.{CachedToken, before}
use vault_plugin_secrets_sal.Platform.{Platform}
use vault_plugin_secrets_sal.Platform.Laws.{IsLawful}
use vault_plugin_secrets_sal.Action.{State, call, raise, pure, attempt, ◌>>=◌}
use vault_plugin_secrets_sal.Action.Keeps.{Keeps, Keeps-bind, Keeps-pure, Keeps-raise}
use vault_plugin_secrets_sal.Storage.{get_cached_token}
use vault_plugin_secrets_sal.Storage.Stored.{SameEntries}
use vault_plugin_secrets_sal.Storage.Frames.{SameEntries-IsStable, IsStable, Keeps-log}
use vault_plugin_secrets_sal.Client.{is_transient_mint_error}
use vault_plugin_secrets_sal.Creds.{
  fail_closed, serve_or_fail, after_mint, unexpired_or_none, unexpired_cached,
}
use vault_plugin_secrets_sal.Creds.Frames.{Keeps-unexpired_cached}

module _ {V : Platform} (L : IsLawful V) (name : String) (e : Error)
    (transient : is_transient_mint_error e ≡ true) where
  fail_closed-passes : fail_closed V name e ≡ raise e
  unfolding fail_closed
  fail_closed-passes = rw transient refl

  Keeps-serve_or_fail :
      {P : State V → Type 0}
      → IsStable L (λ j. ⊥) P
      → (o : Option CachedToken) → Keeps P (serve_or_fail V name e o)
  unfolding serve_or_fail
  Keeps-serve_or_fail st none = rw fail_closed-passes (Keeps-raise e)
  Keeps-serve_or_fail st (some ct) =
      rw transient (Keeps-bind _ _ (Keeps-log L st _) λ _. Keeps-pure (ct, true))

  Keeps-after_mint :
      {P : State V → Type 0} → IsStable L (λ j. ⊥) P → Keeps P (after_mint V name (fail e))
  unfolding after_mint
  Keeps-after_mint st = Keeps-bind _ _ (Keeps-unexpired_cached L st name) (Keeps-serve_or_fail st)

  -- When minting fails in a way that may pass, no entry changes; and where the cached token can be
  -- read and has not expired by the clock, it is served.
  pub after_mint-serves :
      (s : State V)
      → SameEntries L s (after_mint V name (fail e) s).1
        × ((ct : CachedToken)
            → (get_cached_token V name s).0 ≡ ok (some ct)
            → before (V.now (get_cached_token V name s).1.world).0 ct.expires_at ≡ true
            → (after_mint V name (fail e) s).0 ≡ ok (ct, true))
  unfolding after_mint unexpired_cached unexpired_or_none serve_or_fail attempt call pure ◌>>=◌
  after_mint-serves s = (
    (Keeps-after_mint (SameEntries-IsStable L s)).at s (λ j. refl),
    λ ct got valid. rw (got, valid, transient) refl,
  )
