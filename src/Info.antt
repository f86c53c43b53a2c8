-- ===== src/Info.antt =====
-- path_info.go: the endpoint that says what the plugin is.
use vault_plugin_secrets_sal.Common.{String, List, [], ◌∷◌}
use vault_plugin_secrets_sal.Errors.{Reply, respond}
use vault_plugin_secrets_sal.Platform.{Platform}
use vault_plugin_secrets_sal.Action.{Action, pure}

pub record Info : Type 0 where
  pub plugin : String
  pub flows : List String

unfoldable pub path_info_read : (V : Platform) → Action V (Reply Info)
path_info_read V = pure (
    respond (record {
      plugin = "vault-plugin-secrets-salesforce";
      flows = "jwt_bearer" ∷ "client_credentials" ∷ [];
    }))
