-- ===== src/Storage/Purge.antt =====
-- The purge of the cached tokens of all roles bound to a configuration.
use vault_plugin_secrets_sal.Common.{
  String, ◌<>◌, ◌≡◌, refl, ◌∙◌, ap, inl, inr, true, Option, none, some, List, [], ◌∷◌, ◌==◌, eq_iff,
  text-cases,
}
use vault_plugin_secrets_sal.Common.Text.{role-ne-cache}
use mathlib.Core.Path.{subst}
use mathlib.Core.Option.{some-injective}
use vault_plugin_secrets_sal.Errors.{ok}
use vault_plugin_secrets_sal.Role.{Role, roles_storage_prefix}
use vault_plugin_secrets_sal.Token.{cache_storage_prefix}
use vault_plugin_secrets_sal.Platform.{Platform}
use vault_plugin_secrets_sal.Platform.Laws.{IsLawful, contains, is_flat}
use vault_plugin_secrets_sal.Action.{State, try_call, ◌>>◌}
use vault_plugin_secrets_sal.Action.Keeps.{Keeps}
use vault_plugin_secrets_sal.Action.Inversion.{bind-ok}
use vault_plugin_secrets_sal.Storage.{
  get_role, delete_cached_token, delete_if_bound, delete_each_bound,
  delete_cached_tokens_for_config,
}
use vault_plugin_secrets_sal.Storage.Stored.{entry, stored_role}
use vault_plugin_secrets_sal.Storage.Reads.{decoded-present, get_role-stored}
use vault_plugin_secrets_sal.Storage.Frames.{
  IsStable, Keeps-get_role, Keeps-delete_cached_token, Keeps-delete_if_bound,
  Keeps-delete_each_bound,
}

module _ {V : Platform} (L : IsLawful V) where
  -- A deletion that succeeds leaves no token.
  pub delete_cached_token-gone :
      (name : String) (s : State V) {u : Unit {0}}
      → (delete_cached_token V name s).0 ≡ ok u
      → entry L (delete_cached_token V name s).1 (cache_storage_prefix <> name) ≡ none
  unfolding delete_cached_token try_call
  delete_cached_token-gone name s h = L.storage.delete-view _ s.world h

  -- An entry that is gone stays gone.
  IsGone : String → State V → Type 0
  IsGone k s = entry L s k ≡ none

  IsGone-IsStable : (k : String) → IsStable L (λ j. ⊥) (IsGone k)
  unfolding IsGone
  IsGone-IsStable k = record { transfer = λ s t agree h. agree k (λ x. x) ∙ h }

  Keeps-IsGone : (k name : String) → Keeps (IsGone k) (delete_cached_token V name)
  unfolding IsGone delete_cached_token try_call
  Keeps-IsGone k name = record {
    at = λ s h. elim (L.storage.view-delete (cache_storage_prefix <> name) s.world k) [
      | inl same ↦ same ∙ h
      | inr (_, gone) ↦ gone
    ];
  }

  -- The roles are as they were.
  SameRoles : State V → State V → Type 0
  SameRoles s t =
      (name : String)
      → entry L t (roles_storage_prefix <> name) ≡ entry L s (roles_storage_prefix <> name)

  abbrev IsCacheKey : String → Type 0
  IsCacheKey j = (n : String) × (j ≡ cache_storage_prefix <> n)

  SameRoles-IsStable : (s : State V) → IsStable L IsCacheKey (SameRoles s)
  unfolding SameRoles
  SameRoles-IsStable s = record {
    transfer = λ t u agree h name.
        agree (roles_storage_prefix <> name) (λ (n, e). role-ne-cache name n e) ∙ h name;
  }

  module _ (config_name : String) (r : Role) (bound : r.config ≡ config_name) where
    delete_if_bound-IsGone :
        (name : String) (role : Option Role) (s : State V) {u : Unit {0}}
        → role ≡ some r
        → (delete_if_bound V config_name name role s).0 ≡ ok u
        → IsGone (cache_storage_prefix <> name) (delete_if_bound V config_name name role s).1
    unfolding delete_if_bound IsGone
    delete_if_bound-IsGone name none s e h = cc
    delete_if_bound-IsGone name (some role) s e h =
        let same : (role.config == config_name) ≡ true =
          (eq_iff role.config config_name).1 (ap Role.config (some-injective _ _ e) ∙ bound) in
        rw same (delete_cached_token-gone name s (rw same at h))

    -- One round of the loop leaves the roles as they were.
    round-SameRoles :
        (n : String) (role : Option Role) (s : State V)
        → SameRoles s (delete_if_bound V config_name n role (get_role V n s).1).1
    unfolding SameRoles
    round-SameRoles n role s =
        let st = SameRoles-IsStable s in
        (Keeps-delete_if_bound L st (λ k. Keeps-delete_cached_token L st k (k, refl)) config_name n
            role).at
          _ ((Keeps-get_role L st n).at s (λ _. refl))

    delete_each_bound-IsGone :
        (name : String) (names : List String) (s : State V) {u : Unit {0}}
        → (delete_each_bound V config_name names s).0 ≡ ok u
        → contains names name ≡ true
        → stored_role L s name ≡ ok (some r)
        → IsGone (cache_storage_prefix <> name) (delete_each_bound V config_name names s).1
    unfolding delete_each_bound SameRoles
    delete_each_bound-IsGone name [] s h c e = cc
    delete_each_bound-IsGone name (n ∷ names) s h c e =
        let rest = delete_each_bound V config_name names in
        let purge_one = λ (o : Option Role). delete_if_bound V config_name n o in
        let (role, got, e1) =
          bind-ok (get_role V n) (λ (o : Option Role). purge_one o >> rest) s h in
        let s1 = (get_role V n s).1 in
        let h1 : ((purge_one role >> rest) s1).0 ≡ ok tt = rw e1 at h in
        let (_, deleted, e2) = bind-ok (purge_one role) (λ _. rest) s1 h1 in
        let s2 = (purge_one role s1).1 in
        let h2 : (rest s2).0 ≡ ok tt = rw e2 at h1 in
        let k = cache_storage_prefix <> name in
        rw (e1, e2)
          (elim (text-cases n name) [
            | inl (_, here) ↦
                let stored = get_role-stored L n s got in
                let same : role ≡ some r = cc (stored, e, here) in
                let gone = delete_if_bound-IsGone n role s1 same deleted in
                (Keeps-delete_each_bound L (IsGone-IsStable k) (Keeps-IsGone k) config_name
                    names).at
                  s2 (subst (λ (x : String). IsGone (cache_storage_prefix <> x) s2) here gone)
            | inr (differ, _) ↦
                delete_each_bound-IsGone name names s2 h2 (rw differ at c)
                  (rw (round-SameRoles n role s name) e)
          ])

    -- After a purge that succeeds, no role of the configuration has a cached token.
    pub delete_cached_tokens_for_config-gone :
        (name : String) (s : State V) {u : Unit {0}}
        → is_flat name ≡ true
        → stored_role L s name ≡ ok (some r)
        → (delete_cached_tokens_for_config V config_name s).0 ≡ ok u
        → entry L (delete_cached_tokens_for_config V config_name s).1 (cache_storage_prefix <> name)
          ≡ none
    unfolding delete_cached_tokens_for_config IsGone try_call
    delete_cached_tokens_for_config-gone name s flat e h =
        let listing = try_call V (V.storage_list roles_storage_prefix) in
        let (names, listed, e1) =
          bind-ok listing (λ (ns : List String). delete_each_bound V config_name ns) s h in
        let s1 = (listing s).1 in
        rw e1 (
          delete_each_bound-IsGone name names s1 (rw e1 at h)
            (L.storage.list-view roles_storage_prefix s.world listed name flat
              (decoded-present V.role_json e))
            (rw (L.storage.view-list roles_storage_prefix s.world (roles_storage_prefix <> name))
              e))
