-- ===== src/Storage/Stored.antt =====
-- What the storage holds, as the engine reads it.
use vault_plugin_secrets_sal.Common.{String, ◌<>◌, ◌≡◌, Option}
use vault_plugin_secrets_sal.Errors.{Outcome}
use vault_plugin_secrets_sal.Config.{Config, config_storage_prefix}
use vault_plugin_secrets_sal.Role.{Role, roles_storage_prefix}
use vault_plugin_secrets_sal.Token.{CachedToken, cache_storage_prefix}
use vault_plugin_secrets_sal.Platform.{Platform}
use vault_plugin_secrets_sal.Platform.Laws.{IsLawful}
use vault_plugin_secrets_sal.Action.{State}
use vault_plugin_secrets_sal.Storage.{decoded}

module _ {V : Platform} (L : IsLawful V) where
  -- The entry of a key.
  abbrev pub entry : State V → String → Option V.Entry
  entry s = L.view s.world

  abbrev pub stored_config : State V → String → Outcome (Option Config)
  stored_config s name = decoded V.config_json (entry s (config_storage_prefix <> name))

  abbrev pub stored_role : State V → String → Outcome (Option Role)
  stored_role s name = decoded V.role_json (entry s (roles_storage_prefix <> name))

  abbrev pub stored_token : State V → String → Outcome (Option CachedToken)
  stored_token s name = decoded V.token_json (entry s (cache_storage_prefix <> name))

  -- Two states with the same entries.
  abbrev pub SameEntries : State V → State V → Type 0
  SameEntries s t = (j : String) → entry t j ≡ entry s j
