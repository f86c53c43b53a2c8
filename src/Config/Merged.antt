-- ===== src/Config/Merged.antt =====
-- What an accepted write of config/<name> stores, field by field (path_config.go
-- `pathConfigWrite`).
use vault_plugin_secrets_sal.Common.{◌≡◌, Option, none, some}
use vault_plugin_secrets_sal.Common.Supplied.{Replaced, taken, kept}
use vault_plugin_secrets_sal.Errors.{ok, empty}
use vault_plugin_secrets_sal.Config.{Config}
use vault_plugin_secrets_sal.Platform.{Platform}
use vault_plugin_secrets_sal.Platform.Laws.{IsLawful}
use vault_plugin_secrets_sal.Action.{State}
use vault_plugin_secrets_sal.Storage.Stored.{stored_config}
use vault_plugin_secrets_sal.Config.Handlers.{
  ConfigFields, supplied_or, merge_config, or_no_config, config_refusal, path_config_write,
}
use vault_plugin_secrets_sal.Config.Writes.{path_config_write-stored_config}

-- Each field of `new` is the supplied one, or the one of `old`.
pub record ConfigUpdated (d : ConfigFields) (old new : Config) : Type 0 where
  login_url : Replaced d.login_url old.login_url new.login_url
  token_url : Replaced d.token_url old.token_url new.token_url
  client_id : Replaced d.client_id old.client_id new.client_id
  client_secret : Replaced d.client_secret old.client_secret new.client_secret
  private_key : Replaced d.private_key old.private_key new.private_key
  ca_cert : Replaced d.ca_cert old.ca_cert new.ca_cert
  tls_skip_verify : Replaced d.tls_skip_verify old.tls_skip_verify new.tls_skip_verify
  allow_non_salesforce_host :
      Replaced d.allow_non_salesforce_host old.allow_non_salesforce_host
        new.allow_non_salesforce_host

supplied_or-Replaced {ℓ} :
    {A : Type ℓ} (o : Option A) (old : A) → Replaced o old (supplied_or o old)
supplied_or-Replaced none old = kept
supplied_or-Replaced (some v) old = taken

merge_config-ConfigUpdated :
    (d : ConfigFields) (old : Config) → ConfigUpdated d old (merge_config d old)
unfolding merge_config
merge_config-ConfigUpdated d old = record {
  login_url = supplied_or-Replaced d.login_url old.login_url;
  token_url = supplied_or-Replaced d.token_url old.token_url;
  client_id = supplied_or-Replaced d.client_id old.client_id;
  client_secret = supplied_or-Replaced d.client_secret old.client_secret;
  private_key = supplied_or-Replaced d.private_key old.private_key;
  ca_cert = supplied_or-Replaced d.ca_cert old.ca_cert;
  tls_skip_verify = supplied_or-Replaced d.tls_skip_verify old.tls_skip_verify;
  allow_non_salesforce_host =
      supplied_or-Replaced d.allow_non_salesforce_host old.allow_non_salesforce_host;
}

-- After a write that succeeds, each field of the stored configuration is the supplied one, or the
-- one that was stored before (of the zero configuration, if none was); and it passed every check
-- of the handler.
pub path_config_write-ConfigUpdated :
    {V : Platform} (L : IsLawful V) (d : ConfigFields) (s : State V)
    → (path_config_write V d s).0 ≡ ok empty
    → (old : Option Config) × (new : Config) × (stored_config L s d.name ≡ ok old)
      × (stored_config L (path_config_write V d s).1 d.name ≡ ok (some new))
      × ConfigUpdated d (or_no_config old) new
      × (config_refusal V old d new ≡ none)
path_config_write-ConfigUpdated L d s accepted =
    let (old, was, passed, now) = path_config_write-stored_config L d s accepted in
    let new = merge_config d (or_no_config old) in
    (old, new, was, now, merge_config-ConfigUpdated d (or_no_config old), passed)
