-- ===== src/Config/Storing.antt =====
-- What a write of config/<name> that succeeds has done (path_config.go `pathConfigWrite`).
use vault_plugin_secrets_sal.Common.{
  String, ◌<>◌, ◌≡◌, ◌≢◌, refl, ◌∙◌, ap, inl, inr, ◌==◌, Option, none, some, Bool-cases,
  Option-cases,
}
use vault_plugin_secrets_sal.Errors.{Outcome, ok, Reply, empty}
use vault_plugin_secrets_sal.Config.{Config, config_storage_prefix}
use vault_plugin_secrets_sal.Platform.{Platform}
use vault_plugin_secrets_sal.Platform.Laws.{IsLawful}
use vault_plugin_secrets_sal.Action.{Action, State, lift, try_call, pure, ◌>>=◌, ◌>>◌}
use vault_plugin_secrets_sal.Action.Inversion.{bind-ok}
use vault_plugin_secrets_sal.Storage.{get_config, delete_cached_tokens_for_config}
use vault_plugin_secrets_sal.Storage.Stored.{entry, stored_config}
use vault_plugin_secrets_sal.Storage.Reads.{decoded_encode, get_config-stored}
use vault_plugin_secrets_sal.Storage.Frames.{SameEntries-IsStable, put_ne, Keeps-get_config}
use vault_plugin_secrets_sal.Config.Handlers.{
  ConfigFields, merge_config, or_no_config, config_refusal, audit_config, store_config, write_over,
  path_config_write,
}
use vault_plugin_secrets_sal.Config.Frames.{Keeps-audit_config}

module _ {V : Platform} (L : IsLawful V) where
  -- The state in which an accepted configuration was put, before the purge.
  pub record Put (name : String) (cfg : Config) (s t : State V) : Type 0 where
    pub at_key : stored_config L t name ≡ ok (some cfg)
    pub others : (j : String) → j ≢ config_storage_prefix <> name → entry L t j ≡ entry L s j

  -- A store that succeeds has put the configuration, and then purged.
  pub store_config-ok :
      (name : String) (stored : Option Config) (cfg : Config) (s : State V)
      {reply : Reply (Unit {0})}
      → (store_config V name stored cfg s).0 ≡ ok reply
      → (t : State V) × Put name cfg s t
        × ((delete_cached_tokens_for_config V name t).0 ≡ ok tt)
        × ((store_config V name stored cfg s).1 ≡ (delete_cached_tokens_for_config V name t).1)
        × (reply ≡ empty)
  unfolding store_config lift try_call pure
  store_config-ok name stored cfg s {reply} h =
      let key = config_storage_prefix <> name in
      let put = λ (e : V.Entry). try_call V (V.storage_put key e) in
      let purge = delete_cached_tokens_for_config V name in
      let finish : Action V (Reply (Unit {0})) = purge >> pure empty in
      let store = λ (e : V.Entry). put e >> finish in
      let audit = audit_config V name stored cfg in
      let s1 = (audit s).1 in
      let (_, _, e1) = bind-ok audit (λ _. lift (V.config_json.encode cfg) >>= store) s h in
      let (e, encoded, e2) = bind-ok (lift (V.config_json.encode cfg)) store s1 (rw e1 at h) in
      let (_, done, e3) = bind-ok (put e) (λ _. finish) s1 (rw (e1, e2) at h) in
      let t = (put e s1).1 in
      let (_, purged, e4) = bind-ok purge (λ _. pure empty) t (rw (e1, e2, e3) at h) in
      let whole = e1 ∙ e2 ∙ e3 ∙ e4 in
      let kept =
        (Keeps-audit_config L (SameEntries-IsStable L s) name stored cfg).at s (λ _. refl) in
      (
        t,
        record {
          at_key =
              rw (L.storage.put-view key e s1.world done)
                (decoded_encode V.config_json L.config_json cfg encoded);
          others = λ j n. put_ne L key e s1 j n ∙ kept j;
        },
        purged,
        ap (λ (r : Outcome (Reply (Unit {0})) × State V). r.1) whole,
        cc,
      )

  -- What an accepted write has done: it read `stored`, its merge passed the checks, and it was put
  -- in the state `put` before the purge.
  pub record Accepted (d : ConfigFields) (s : State V) : Type 0 where
    pub stored : Option Config
    pub put : State V
    pub was_stored : stored_config L s d.name ≡ ok stored
    pub passed : config_refusal V stored d (merge_config d (or_no_config stored)) ≡ none
    pub is_put : Put d.name (merge_config d (or_no_config stored)) s put
    pub purged : (delete_cached_tokens_for_config V d.name put).0 ≡ ok tt
    pub final : (path_config_write V d s).1 ≡ (delete_cached_tokens_for_config V d.name put).1

  write_over-accepted :
      (d : ConfigFields) (stored : Option Config) (s : State V)
      → (write_over V d stored s).0 ≡ ok empty
      → (config_refusal V stored d (merge_config d (or_no_config stored)) ≡ none)
        × (write_over V d stored s
            ≡ store_config V d.name stored (merge_config d (or_no_config stored)) s)
  unfolding write_over pure
  write_over-accepted d stored s h =
      elim (Option-cases (config_refusal V stored d (merge_config d (or_no_config stored)))) [
        | inl n ↦ (n, rw (n, write_over))
        | inr (e, r) ↦ cc (h, r)
      ]

  module _ (d : ConfigFields) (s : State V) where
    pub path_config_write-Accepted : (path_config_write V d s).0 ≡ ok empty → Accepted d s
    unfolding path_config_write pure
    path_config_write-Accepted h = elim (Bool-cases (d.name == "")) [
      | inl e ↦ cc (h, e)
      | inr e ↦
          let over = write_over V d in
          let (stored, got, e1) = bind-ok (get_config V d.name) over s (rw e at h) in
          let s1 = (get_config V d.name s).1 in
          let (n, e2) = write_over-accepted d stored s1 (rw (e, e1) at h) in
          let cfg = merge_config d (or_no_config stored) in
          let (t, put, purged, e3, _) =
            store_config-ok d.name stored cfg s1 (rw (e, e1, e2) at h) in
          let same = (Keeps-get_config L (SameEntries-IsStable L s) d.name).at s (λ _. refl) in
          record {
            stored = stored;
            put = t;
            was_stored = get_config-stored L d.name s got;
            passed = n;
            is_put = record { at_key = put.at_key; others = λ j ne. put.others j ne ∙ same j };
            purged = purged;
            final = rw (e, e1, e2) e3;
          }
    ]
