-- ===== src/Role/Writes.antt =====
-- What a write of roles/<name> does: it stores the merge of the supplied fields and drops the
-- role's cached token, and never changes the identity of a role; or it changes nothing.
use vault_plugin_secrets_sal.Common.{
  String, ◌<>◌, ◌≡◌, refl, inl, inr, true, ◌==◌, Option, none, some, Bool-cases, Option-cases,
}
use vault_plugin_secrets_sal.Errors.{Error, ok, Reply, error_response}
use vault_plugin_secrets_sal.Config.{Config, config_storage_prefix}
use vault_plugin_secrets_sal.Role.{Role}
use vault_plugin_secrets_sal.Token.{cache_storage_prefix}
use vault_plugin_secrets_sal.Platform.{Platform}
use vault_plugin_secrets_sal.Platform.Laws.{IsLawful}
use vault_plugin_secrets_sal.Action.{State, pure}
use vault_plugin_secrets_sal.Action.Inversion.{bind-ok}
use vault_plugin_secrets_sal.Storage.{get_role}
use vault_plugin_secrets_sal.Storage.Stored.{entry, stored_config, stored_role, SameEntries}
use vault_plugin_secrets_sal.Storage.Reads.{get_role-stored}
use vault_plugin_secrets_sal.Storage.Frames.{SameEntries-IsStable, Keeps-get_role}
use vault_plugin_secrets_sal.Role.Handlers.{
  RoleFields, merge_role, or_no_role, identity_refusal, role_refusal, grant_refusal,
  check_and_store_role, write_role_over, path_role_write,
}
use vault_plugin_secrets_sal.Role.Storing.{
  is_accepted, CanMint, refusals-CanMint, identity_refusal-same, validate_role-ok, RoleStored,
  store_role-ok, check_and_store_role-ok, check_and_store_role-rejected,
}

module _ {V : Platform} (L : IsLawful V) where
  -- What an accepted write has done: it read `stored`, its merge `new` passed the checks against
  -- the configuration `cfg`, and it was stored.
  record Accepted (d : RoleFields) (s : State V) : Type 0 where
    stored : Option Role
    cfg : Config
    was_stored : stored_role L s d.name ≡ ok stored
    same_identity : identity_refusal stored (merge_role d (or_no_role stored)) ≡ none
    passed : role_refusal (merge_role d (or_no_role stored)) ≡ none
    has_config : stored_config L s (merge_role d (or_no_role stored)).config ≡ ok (some cfg)
    can_mint : grant_refusal (merge_role d (or_no_role stored)) cfg ≡ none
    result : RoleStored L d.name (merge_role d (or_no_role stored)) (path_role_write V d s).1

  module _ (d : RoleFields) (s : State V) where
    path_role_write-Accepted :
        {reply : Reply String}
        → (path_role_write V d s).0 ≡ ok reply
        → is_accepted reply ≡ true
        → Accepted d s
    unfolding path_role_write write_role_over pure
    path_role_write-Accepted {reply} h a = elim (Bool-cases (d.name == "")) [
      | inl e ↦ cc (rw e at h, a)
      | inr e ↦
          let (stored, got, e1) = bind-ok (get_role V d.name) (write_role_over V d) s (rw e at h) in
          let role = merge_role d (or_no_role stored) in
          let s1 = (get_role V d.name s).1 in
          let same = (Keeps-get_role L (SameEntries-IsStable L s) d.name).at s (λ _. refl) in
          elim (Option-cases (identity_refusal stored role)) [
            | inr (why, r) ↦ cc (rw (e, e1, r) at h, a)
            | inl n ↦
                let (valid, stores, e2) =
                  check_and_store_role-ok L d.name role s1 {reply = reply} (rw (e, e1, n) at h) a in
                let (passed, cfg, held, g) = validate_role-ok L role s1 valid in
                let (is_stored, _) = store_role-ok L d.name role _ {reply = reply} stores in
                record {
                  stored = stored;
                  cfg = cfg;
                  was_stored = get_role-stored L d.name s got;
                  same_identity = n;
                  passed = passed;
                  has_config = rw (← same (config_storage_prefix <> role.config)) held;
                  can_mint = g;
                  result = rw (e, e1, n, e2) is_stored;
                }
          ]
    ]

    module _ (reply : Reply String) (answered : (path_role_write V d s).0 ≡ ok reply)
        (accepted : is_accepted reply ≡ true) where
      -- After a write that the handler accepts, the stored role is the one that was stored before
      -- (or the zero one), with each supplied field replaced and the defaults filled in; it passes
      -- the checks on its fields, and its cached token is gone.
      pub path_role_write-stored_role :
          (old : Option Role) × (stored_role L s d.name ≡ ok old)
          × (role_refusal (merge_role d (or_no_role old)) ≡ none)
          × (stored_role L (path_role_write V d s).1 d.name
              ≡ ok (some (merge_role d (or_no_role old))))
          × (entry L (path_role_write V d s).1 (cache_storage_prefix <> d.name) ≡ none)
      path_role_write-stored_role =
          let a = path_role_write-Accepted answered accepted in
          (a.stored, a.was_stored, a.passed, a.result.at_key, a.result.token_gone)

      -- An accepted write over a stored role keeps its Salesforce user and its configuration.
      pub path_role_write-identity :
          (old : Role)
          → stored_role L s d.name ≡ ok (some old)
          → (new : Role) × (stored_role L (path_role_write V d s).1 d.name ≡ ok (some new))
            × (new.username ≡ old.username)
            × (new.config ≡ old.config)
      path_role_write-identity old held =
          let a = path_role_write-Accepted answered accepted in
          let here : a.stored ≡ some old = cc (a.was_stored, held) in
          let (user, config) =
            identity_refusal-same old (merge_role d old) (rw here at a.same_identity) in
          (merge_role d old, rw here at a.result.at_key, user, config)

      -- A role that is accepted is bound to a configuration that exists, and that holds the secret
      -- of the role's flow; a role of the JWT flow has a user.
      pub path_role_write-CanMint :
          (new : Role) × (cfg : Config) × (stored_role L (path_role_write V d s).1 d.name
            ≡ ok (some new))
          × (stored_config L s new.config ≡ ok (some cfg))
          × CanMint new cfg
      path_role_write-CanMint =
          let a = path_role_write-Accepted answered accepted in
          (
            merge_role d (or_no_role a.stored),
            a.cfg,
            a.result.at_key,
            a.has_config,
            refusals-CanMint _ a.cfg a.passed a.can_mint,
          )

    -- A write that the handler rejects changes no entry.
    pub path_role_write-rejected :
        (e : Error)
        → (path_role_write V d s).0 ≡ ok (error_response e)
        → SameEntries L s (path_role_write V d s).1
    unfolding path_role_write write_role_over check_and_store_role pure
    path_role_write-rejected e h = elim (Bool-cases (d.name == "")) [
      | inl n ↦ rw n (λ j. refl)
      | inr n ↦
          let (stored, got, e1) = bind-ok (get_role V d.name) (write_role_over V d) s (rw n at h) in
          let role = merge_role d (or_no_role stored) in
          let s1 = (get_role V d.name s).1 in
          let st = SameEntries-IsStable L s in
          let same = (Keeps-get_role L st d.name).at s (λ _. refl) in
          rw (n, e1)
            (elim (Option-cases (identity_refusal stored role)) [
              | inr (why, r) ↦ rw r same
              | inl r ↦
                  rw r
                    (check_and_store_role-rejected L d.name role s s1 e same (rw (n, e1, r) at h))
            ])
    ]
