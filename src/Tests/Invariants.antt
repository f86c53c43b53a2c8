-- ===== src/Tests/Invariants.antt =====
-- The invariant at a run from the empty storage.
use vault_plugin_secrets_sal.Common.{String, [], ◌∷◌}
use vault_plugin_secrets_sal.Platform.Memory.{memory}
use vault_plugin_secrets_sal.Platform.Memory.Lawful.{memory-IsLawful}
use vault_plugin_secrets_sal.Action.{State, call}
use vault_plugin_secrets_sal.Action.Keeps.{Keeps}
use vault_plugin_secrets_sal.Storage.{decoded}
use vault_plugin_secrets_sal.Engine.{config_write, role_write, creds_read, serve_all}
use vault_plugin_secrets_sal.Engine.Invariant.{IsSound, serve_all-IsSound}
use vault_plugin_secrets_sal.Tests.Data.{no_memory, at_memory, acme_fields, app_fields}

lock-Keeps : {P : State memory → Type 0} (k : String) → Keeps P (call memory (memory.lock k))
unfolding memory call
lock-Keeps k = record { at = λ s h. h }

empty-IsSound : IsSound memory-IsLawful (at_memory no_memory)
unfolding memory-IsLawful decoded
empty-IsSound = record {
  configs = record { each = λ name c e. cc };
  roles = record { each = λ name r e. cc };
}

serve_all-IsSound_example : IsSound memory-IsLawful (
    serve_all memory
      (config_write acme_fields ∷ role_write app_fields ∷ creds_read "app" ∷ [])
      (at_memory no_memory))
serve_all-IsSound_example =
    serve_all-IsSound memory-IsLawful lock-Keeps lock-Keeps
      (config_write acme_fields ∷ role_write app_fields ∷ creds_read "app" ∷ [])
      (at_memory no_memory) empty-IsSound
