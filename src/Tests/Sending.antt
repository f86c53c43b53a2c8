-- ===== src/Tests/Sending.antt =====
-- What a read of credentials and a rotation send, on the platform in memory.
use vault_plugin_secrets_sal.Common.{String, List, [], ◌∷◌, ◌⊎◌, refl, arith}
use vault_plugin_secrets_sal.Platform.{HttpRequest, received}
use vault_plugin_secrets_sal.Platform.Exchanges.{LedFrom, posted}
use vault_plugin_secrets_sal.Platform.Memory.{memory}
use vault_plugin_secrets_sal.Platform.Memory.Lawful.{memory-IsLawful}
use vault_plugin_secrets_sal.Action.{State, call}
use vault_plugin_secrets_sal.Action.Keeps.{Keeps}
use vault_plugin_secrets_sal.Storage.{decoded}
use vault_plugin_secrets_sal.Creds.{path_creds_read}
use vault_plugin_secrets_sal.Engine.{Request, config_write, role_write, serve_all}
use vault_plugin_secrets_sal.Engine.Invariant.{IsSound}
use vault_plugin_secrets_sal.Engine.Recorded.{Adds, IsSilent}
use vault_plugin_secrets_sal.Engine.Egress.{
  IsTarget, path_creds_read-SendsOnly, IsRevocation, path_rotate-SendsOnly,
}
use vault_plugin_secrets_sal.Lease.{path_rotate}
use vault_plugin_secrets_sal.Tests.Data.{no_memory, at_memory, acme_fields, app_fields}

-- The endpoint is about to give a token.
abbrev start : State memory
start = at_memory (record no_memory { answers = received 200 "00Dxx!first" ∷ [] })

abbrev requests : List Request
requests = config_write acme_fields ∷ role_write app_fields ∷ []

abbrev reached : State memory
reached = serve_all memory requests start

-- The endpoint of these runs does not redirect.
abbrev NoRedirect : HttpRequest → HttpRequest → Type 0
NoRedirect r x = ⊥

unfoldable sent_of : memory.World → List HttpRequest
unfolding memory
sent_of m = m.sent

memory-IsSilent : IsSilent memory sent_of NoRedirect
unfolding memory sent_of
memory-IsSilent = record {
  recorded = record {
    sent-post = λ c r w. (1, r, omega arith, posted);
    sent-context_error = λ w. refl;
    sent-rand_int63n = λ n w. refl;
    sent-wait = λ d w. refl;
  };
  sent-now = λ w. refl;
  sent-try_lock = λ k w. refl;
  sent-unlock = λ k w. refl;
  sent-log = λ l w. refl;
  sent-get = λ k w. refl;
  sent-put = λ k e w. refl;
  sent-delete = λ k w. refl;
}

lock-Keeps : {P : State memory → Type 0} (k : String) → Keeps P (call memory (memory.lock k))
unfolding memory call
lock-Keeps k = record { at = λ s h. h }

start-IsSound : IsSound memory-IsLawful start
unfolding memory-IsLawful decoded
start-IsSound = record {
  configs = record { each = λ name c e. cc };
  roles = record { each = λ name r e. cc };
}

path_creds_read-SendsOnly_example :
    Adds
      (LedFrom NoRedirect (IsTarget memory-IsLawful memory-IsSilent reached "app"))
      (sent_of reached.world)
      (sent_of (path_creds_read memory "app" reached).1.world)
path_creds_read-SendsOnly_example =
    path_creds_read-SendsOnly memory-IsLawful memory-IsSilent lock-Keeps lock-Keeps requests start
      reached "app" start-IsSound refl (lock-Keeps "app")

path_rotate-SendsOnly_example :
    Adds
      (LedFrom NoRedirect (λ r.
        IsTarget memory-IsLawful memory-IsSilent reached "app" r
        ⊎ IsRevocation memory-IsLawful memory-IsSilent r))
      (sent_of reached.world)
      (sent_of (path_rotate memory "app" reached).1.world)
path_rotate-SendsOnly_example =
    path_rotate-SendsOnly memory-IsLawful memory-IsSilent lock-Keeps lock-Keeps requests start
      reached "app" start-IsSound refl (lock-Keeps "app")
