-- ===== src/Config/Writes.antt =====
-- What a write of config/<name> does: it stores the merge of the supplied fields, guards a secret
-- that is kept, purges the cached tokens of the roles bound to it, or changes nothing.
use vault_plugin_secrets_sal.Common.{
  String, ◌<>◌, ◌≡◌, refl, inl, inr, true, false, ◌==◌, Option, none, some, arith, eq_iff,
  Bool-cases, Option-cases,
}
use vault_plugin_secrets_sal.Common.Text.{config-ne-cache, role-ne-cache, role-ne-config}
use vault_plugin_secrets_sal.Errors.{Error, ok, empty, error_response}
use vault_plugin_secrets_sal.Config.{Config, config_storage_prefix}
use vault_plugin_secrets_sal.Role.{Role, roles_storage_prefix}
use vault_plugin_secrets_sal.Token.{cache_storage_prefix}
use vault_plugin_secrets_sal.Platform.{Platform}
use vault_plugin_secrets_sal.Platform.Laws.{IsLawful, is_flat}
use vault_plugin_secrets_sal.Action.{State, pure}
use vault_plugin_secrets_sal.Action.Inversion.{bind-ok}
use vault_plugin_secrets_sal.Storage.{get_config, delete_cached_tokens_for_config}
use vault_plugin_secrets_sal.Storage.Stored.{entry, stored_config, stored_role, SameEntries}
use vault_plugin_secrets_sal.Storage.Frames.{
  SameEntries-IsStable, OtherEntries-IsStable, Keeps-get_config, Keeps-delete_cached_token,
  Keeps-delete_cached_tokens_for_config,
}
use vault_plugin_secrets_sal.Storage.Purge.{delete_cached_tokens_for_config-gone}
use vault_plugin_secrets_sal.Config.Handlers.{
  ConfigFields, merge_config, or_no_config, secret_re_supplied, holds_secret, config_refusal,
  must_re_supply, sensitive_change, write_over, path_config_write,
}
use vault_plugin_secrets_sal.Config.Storing.{store_config-ok, path_config_write-Accepted}

-- What the checks say of an accepted write that needed no secret.
config_refusal-quiet :
    (V : Platform) (stored : Option Config) (d : ConfigFields) (cfg : Config)
    → config_refusal V stored d cfg ≡ none
    → must_re_supply stored d cfg ≡ false
unfolding config_refusal
config_refusal-quiet V stored d cfg h = ground arith

must_re_supply-calm :
    (old : Config) (d : ConfigFields) (cfg : Config)
    → holds_secret old ≡ true
    → secret_re_supplied d ≡ false
    → must_re_supply (some old) d cfg ≡ false
    → sensitive_change old cfg ≡ false
unfolding must_re_supply
must_re_supply-calm old d cfg holds kept h = ground arith

sensitive_change-calm :
    (old cfg : Config)
    → sensitive_change old cfg ≡ false
    → ((cfg.token_url ≡ old.token_url) × (cfg.login_url ≡ old.login_url))
      × ((cfg.tls_skip_verify ≡ true → old.tls_skip_verify ≡ true)
          × (cfg.allow_non_salesforce_host ≡ true → old.allow_non_salesforce_host ≡ true))
unfolding sensitive_change
sensitive_change-calm old cfg h =
    ground (arith, eq_iff cfg.token_url old.token_url, eq_iff cfg.login_url old.login_url)

merge_config-secrets :
    (d : ConfigFields) (old : Config)
    → secret_re_supplied d ≡ false
    → ((merge_config d old).client_secret ≡ old.client_secret)
      × ((merge_config d old).private_key ≡ old.private_key)
unfolding merge_config
merge_config-secrets d old h = ground arith

module _ {V : Platform} (L : IsLawful V) where
  -- The purge changes cached tokens only.
  purge-others :
      (config_name : String) (s : State V) (j : String)
      → ¬ ((n : String) × (j ≡ cache_storage_prefix <> n))
      → entry L (delete_cached_tokens_for_config V config_name s).1 j ≡ entry L s j
  purge-others config_name s =
      let W = λ (j : String). (n : String) × (j ≡ cache_storage_prefix <> n) in
      let st = OtherEntries-IsStable L W s in
      (Keeps-delete_cached_tokens_for_config L st (λ n. Keeps-delete_cached_token L st n (n, refl))
          config_name).at
        s (λ _ _. refl)

  purge-stored_config :
      (name : String) (config_name : String) (s : State V)
      → stored_config L (delete_cached_tokens_for_config V config_name s).1 name
        ≡ stored_config L s name
  purge-stored_config name config_name s =
      rw
        (purge-others config_name s (config_storage_prefix <> name)
          (λ (n, e). config-ne-cache name n e))
        refl

  module _ (d : ConfigFields) (s : State V)
      (accepted : (path_config_write V d s).0 ≡ ok empty) where
    -- After a write that succeeds, the stored configuration is the one that was stored before (or
    -- the zero one), with each supplied field replaced; it passed every check of the handler.
    pub path_config_write-stored_config :
        (old : Option Config) × (stored_config L s d.name ≡ ok old)
        × (config_refusal V old d (merge_config d (or_no_config old)) ≡ none)
        × (stored_config L (path_config_write V d s).1 d.name
            ≡ ok (some (merge_config d (or_no_config old))))
    path_config_write-stored_config =
        let a = path_config_write-Accepted L d s accepted in
        (
          a.stored,
          a.was_stored,
          a.passed,
          rw (a.final, purge-stored_config d.name d.name a.put) a.is_put.at_key,
        )

    -- A write that succeeds leaves every role as it is.
    pub path_config_write-stored_role :
        (name : String) → stored_role L (path_config_write V d s).1 name ≡ stored_role L s name
    path_config_write-stored_role name =
        let a = path_config_write-Accepted L d s accepted in
        rw
          (
            a.final,
            purge-others d.name a.put (roles_storage_prefix <> name)
                (λ (n, e). role-ne-cache name n e),
            a.is_put.others (roles_storage_prefix <> name) (role-ne-config name d.name),
          )
          refl

    -- After a write that succeeds, no role of a flat name that is bound to the configuration has a
    -- cached token.
    pub path_config_write-purges :
        (name : String) (r : Role)
        → is_flat name ≡ true
        → stored_role L s name ≡ ok (some r)
        → r.config ≡ d.name
        → entry L (path_config_write V d s).1 (cache_storage_prefix <> name) ≡ none
    path_config_write-purges name r flat held bound =
        let a = path_config_write-Accepted L d s accepted in
        rw a.final (
          delete_cached_tokens_for_config-gone L d.name r bound name a.put flat
            (rw (a.is_put.others (roles_storage_prefix <> name) (role-ne-config name d.name)) held)
            a.purged)

    -- A write that succeeds and supplies neither secret, over a configuration that holds one,
    -- keeps the secrets and both URLs, and relaxes no transport guard.
    pub path_config_write-no_repoint :
        (old : Config)
        → stored_config L s d.name ≡ ok (some old)
        → holds_secret old ≡ true
        → secret_re_supplied d ≡ false
        → (new : Config) × (stored_config L (path_config_write V d s).1 d.name ≡ ok (some new))
          × (new.token_url ≡ old.token_url)
          × (new.login_url ≡ old.login_url)
          × (new.client_secret ≡ old.client_secret)
          × (new.private_key ≡ old.private_key)
          × (new.tls_skip_verify ≡ true → old.tls_skip_verify ≡ true)
          × (new.allow_non_salesforce_host ≡ true → old.allow_non_salesforce_host ≡ true)
    path_config_write-no_repoint old held secret kept =
        let (o, was, passed, now) = path_config_write-stored_config in
        let here : o ≡ some old = cc (was, held) in
        let new = merge_config d old in
        let calm =
          must_re_supply-calm old d new secret kept
            (config_refusal-quiet V (some old) d new (rw here at passed)) in
        let (urls, guards) = sensitive_change-calm old new calm in
        let secrets = merge_config-secrets d old kept in
        (new, rw here at now, urls.0, urls.1, secrets.0, secrets.1, guards.0, guards.1)

  -- A write that the handler rejects changes no entry.
  pub path_config_write-rejected :
      (d : ConfigFields) (s : State V) (e : Error)
      → (path_config_write V d s).0 ≡ ok (error_response e)
      → SameEntries L s (path_config_write V d s).1
  unfolding path_config_write write_over pure
  path_config_write-rejected d s e h = elim (Bool-cases (d.name == "")) [
    | inl n ↦ rw n (λ j. refl)
    | inr n ↦
        let (stored, got, e1) = bind-ok (get_config V d.name) (write_over V d) s (rw n at h) in
        let cfg = merge_config d (or_no_config stored) in
        let s1 = (get_config V d.name s).1 in
        let same = (Keeps-get_config L (SameEntries-IsStable L s) d.name).at s (λ _. refl) in
        rw (n, e1)
          (elim (Option-cases (config_refusal V stored d cfg)) [
            | inl r ↦
                let (_, _, _, _, reply) =
                  store_config-ok L d.name stored cfg s1 (rw r at (rw (n, e1) at h)) in
                cc reply
            | inr (why, r) ↦ rw r same
          ])
  ]
