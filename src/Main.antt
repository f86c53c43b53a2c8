-- ===== src/Main.antt =====
-- cmd/vault-plugin-secrets-salesforce/main.go: the binary that Vault starts. Vault's `api` and
-- `plugin` packages, and what `log.Fatal` does to the process, are parameters.
use vault_plugin_secrets_sal.Common.{String, List}
use vault_plugin_secrets_sal.Errors.{Error, Outcome, ok, fail}
use vault_plugin_secrets_sal.Framework.{Framework}
use vault_plugin_secrets_sal.Backend.{Backend, factory}

-- `plugin.ServeOpts`
pub record ServeOpts (F : Framework) (Locks Settings TlsProvider : Type 0) : Type 0 where
  pub backend_factory : Settings → Outcome (Backend F Locks)
  pub tls_provider : TlsProvider

-- How the process ends: `main` returns, or `log.Fatal` ends it with a message.
pub data Ending : Type 0 where
  returned : Ending
  fatal : Error → Ending
  shutting_down : Error → Ending

-- The flags set a TLS configuration; `ServeMultiplex` returns when Vault is done with the plugin.
pub record Host (F : Framework) : Type 1 where
  pub Locks : Type 0
  pub Settings : Type 0
  pub Tls : Type 0
  pub TlsProvider : Type 0
  pub World : Type 0
  pub create_locks : Locks
  pub setup : Settings → Backend F Locks → Outcome (Unit {0})
  pub parse_flags : List String → Outcome Tls
  pub vault_plugin_tls_provider : Tls → TlsProvider
  pub serve_multiplex : ServeOpts F Locks Settings TlsProvider → World → Outcome (Unit {0}) × World

module _ {F : Framework} (H : Host F) where
  abbrev ended : Outcome (Unit {0}) → Ending
  ended (fail e) = shutting_down e
  ended (ok _) = returned

  abbrev serve_opts : H.Tls → ServeOpts F H.Locks H.Settings H.TlsProvider
  serve_opts tls = record {
    backend_factory = factory F H.setup H.create_locks;
    tls_provider = H.vault_plugin_tls_provider tls;
  }

  abbrev serve_with : Outcome H.Tls → H.World → Ending × H.World
  serve_with (fail e) w = (fatal e, w)
  serve_with (ok tls) w =
      let (served, v) = H.serve_multiplex (serve_opts tls) w in (ended served, v)

  -- `main`, with the arguments after the program's name.
  unfoldable pub main : List String → H.World → Ending × H.World
  main args w = serve_with (H.parse_flags args) w
