-- ===== src/Config/Frames.antt =====
-- Which entries the config handlers can change, and which configurations a write stores.
use vault_plugin_secrets_sal.Common.{String, ◌<>◌, ◌≡◌, Bool, Option, none}
use vault_plugin_secrets_sal.Errors.{ok}
use vault_plugin_secrets_sal.Config.{Config, config_storage_prefix}
use vault_plugin_secrets_sal.Token.{cache_storage_prefix}
use vault_plugin_secrets_sal.Platform.{Platform, LogLine}
use vault_plugin_secrets_sal.Platform.Laws.{IsLawful}
use vault_plugin_secrets_sal.Action.{State, try_call}
use vault_plugin_secrets_sal.Action.Keeps.{
  Keeps, Keeps-bind, Keeps-if, Keeps-pure, Keeps-option_eq, Keeps-bind-lift,
}
use vault_plugin_secrets_sal.Storage.{delete_cached_token}
use vault_plugin_secrets_sal.Storage.Frames.{
  IsStable, Keeps-log, Keeps-list, Keeps-get_config, Keeps-delete_cached_token,
  Keeps-delete_cached_tokens_for_config,
}
use vault_plugin_secrets_sal.Config.Handlers.{
  ConfigFields, merge_config, or_no_config, log_if, config_refusal, audit_config, store_config,
  write_over, path_config_write, path_config_read, path_config_delete, path_config_list,
  path_config_existence_check,
}

module _ {V : Platform} (L : IsLawful V) {W : String → Type 0} {P : State V → Type 0}
    (st : IsStable L W P) where
  Keeps-log_if : (b : Bool) (line : LogLine) → Keeps P (log_if V b line)
  unfolding log_if
  Keeps-log_if b line = Keeps-if b _ _ (Keeps-log L st line) (Keeps-pure _)

  pub Keeps-audit_config :
      (name : String) (stored : Option Config) (cfg : Config)
      → Keeps P (audit_config V name stored cfg)
  unfolding audit_config
  Keeps-audit_config name stored cfg =
      Keeps-bind _ _ (Keeps-log_if _ _) λ _. Keeps-bind _ _ (Keeps-log_if _ _) λ _. Keeps-log_if _ _

  pub Keeps-path_config_read : (name : String) → Keeps P (path_config_read V name)
  unfolding path_config_read
  Keeps-path_config_read name =
      Keeps-bind _ _ (Keeps-get_config L st name)
        λ cfg. Keeps-option_eq cfg _ _ (λ _. Keeps-pure _) (λ _ _. Keeps-pure _)

  pub Keeps-path_config_list : Keeps P (path_config_list V)
  unfolding path_config_list
  Keeps-path_config_list = Keeps-bind _ _ (Keeps-list L st _) λ _. Keeps-pure _

  pub Keeps-path_config_existence_check :
      (name : String) → Keeps P (path_config_existence_check V name)
  unfolding path_config_existence_check
  Keeps-path_config_existence_check name =
      Keeps-bind _ _ (Keeps-get_config L st name) λ _. Keeps-pure _

  module _ (all : (name : String) → W (cache_storage_prefix <> name)) where
    purge : (name : String) → Keeps P (delete_cached_token V name)
    purge name = Keeps-delete_cached_token L st name (all name)

    -- A write keeps `P` if storing an accepted configuration does.
    pub Keeps-path_config_write :
        (d : ConfigFields)
        → ((stored : Option Config) (e : V.Entry)
            → let cfg = merge_config d (or_no_config stored) in
              config_refusal V stored d cfg ≡ none
              → V.config_json.encode cfg ≡ ok e
              → Keeps P (try_call V (V.storage_put (config_storage_prefix <> d.name) e)))
        → Keeps P (path_config_write V d)
    unfolding path_config_write write_over store_config
    Keeps-path_config_write d put = Keeps-if _ _ _ (Keeps-pure _) (
        Keeps-bind _ _ (Keeps-get_config L st d.name) λ stored.
          Keeps-option_eq _ _ _
            (λ accepted. Keeps-bind _ _ (Keeps-audit_config d.name stored _) λ _.
              Keeps-bind-lift _ _ λ e encoded. Keeps-bind _ _ (put stored e accepted encoded) λ _.
                Keeps-bind _ _ (Keeps-delete_cached_tokens_for_config L st purge d.name)
                  λ _. Keeps-pure _)
            (λ _ _. Keeps-pure _))

    pub Keeps-path_config_delete :
        (name : String)
        → Keeps P (try_call V (V.storage_delete (config_storage_prefix <> name)))
        → Keeps P (path_config_delete V name)
    unfolding path_config_delete
    Keeps-path_config_delete name del =
        Keeps-bind _ _ (Keeps-delete_cached_tokens_for_config L st purge name)
          λ _. Keeps-bind _ _ del λ _. Keeps-pure _
