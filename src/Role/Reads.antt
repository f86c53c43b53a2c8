-- ===== src/Role/Reads.antt =====
-- What a read of roles/<name> gives back, and what a delete leaves behind (path_roles.go).
use vault_plugin_secrets_sal.Common.{
  String, ◌<>◌, ◌≡◌, ◌∙◌, ap, Option, none, some, on_nil, arith, inl, inr,
}
use vault_plugin_secrets_sal.Common.Int.{ℤ, pos, negsuc, neg, ◌*ℤ◌, InRange, wrap_int64_of_InRange}
use vault_plugin_secrets_sal.Errors.{ok, Reply, empty, respond}
use vault_plugin_secrets_sal.Role.{Role, of_seconds, roles_storage_prefix}
use vault_plugin_secrets_sal.Token.{cache_storage_prefix}
use vault_plugin_secrets_sal.Platform.{Platform}
use vault_plugin_secrets_sal.Platform.Laws.{IsLawful}
use vault_plugin_secrets_sal.Action.{Action, State, try_call, pure, ◌>>◌}
use vault_plugin_secrets_sal.Action.Inversion.{bind-ok}
use vault_plugin_secrets_sal.Storage.{get_role, delete_cached_token}
use vault_plugin_secrets_sal.Storage.Stored.{entry, stored_role}
use vault_plugin_secrets_sal.Storage.Reads.{get_role-stored}
use vault_plugin_secrets_sal.Storage.Purge.{delete_cached_token-gone}
use vault_plugin_secrets_sal.Role.Handlers.{
  RoleData, whole_seconds, role_data, path_role_read, path_role_delete,
}

-- A whole number of seconds, in nanoseconds, is that number of whole seconds.
whole_seconds-exact : (n : ℤ) → whole_seconds (n *ℤ pos 1_000_000_000) ≡ n
unfolding whole_seconds ◌*ℤ◌ neg
whole_seconds-exact (pos n) = ground arith
whole_seconds-exact (negsuc n) = ground arith

-- A duration that was given in whole seconds, and fits, is read back in the same seconds.
pub whole_seconds-of_seconds :
    (n : ℤ) → InRange (n *ℤ pos 1_000_000_000) → whole_seconds (of_seconds n) ≡ n
unfolding of_seconds
whole_seconds-of_seconds n fits =
    ap whole_seconds (wrap_int64_of_InRange (n *ℤ pos 1_000_000_000) fits) ∙ whole_seconds-exact n

module _ {V : Platform} (L : IsLawful V) (name : String) (s : State V) where
  answered :
      (o : Option Role) (t : State V) {reply : Reply RoleData}
      → (on_nil {B = Action V (Reply RoleData)} o
          (pure empty)
          (λ r. pure (respond (role_data r)))
          t).0
        ≡ ok reply
      → reply ≡ on_nil o empty (λ r. respond (role_data r))
  unfolding pure
  answered none t h = cc
  answered (some r) t h = cc

  -- A read that succeeds answers with the fields of the stored role, or with nothing where no role
  -- is stored.
  pub path_role_read-stored_role :
      (reply : Reply RoleData)
      → (path_role_read V name s).0 ≡ ok reply
      → (o : Option Role) × (stored_role L s name ≡ ok o)
        × (reply ≡ on_nil o empty (λ r. respond (role_data r)))
  unfolding path_role_read pure
  path_role_read-stored_role reply h =
      let answer : Option Role → Action V (Reply RoleData) =
        λ o. on_nil o (pure empty) (λ r. pure (respond (role_data r))) in
      let (o, got, e) = bind-ok (get_role V name) answer s h in
      (o, get_role-stored L name s got, answered o _ (rw e at h))

  -- After a delete that succeeds, neither the role nor a cached token of it is stored.
  path_role_delete-gone :
      (reply : Reply (Unit {0}))
      → (path_role_delete V name s).0 ≡ ok reply
      → (entry L (path_role_delete V name s).1 (roles_storage_prefix <> name) ≡ none)
        × (entry L (path_role_delete V name s).1 (cache_storage_prefix <> name) ≡ none)
  unfolding path_role_delete pure try_call
  path_role_delete-gone reply h =
      let key = roles_storage_prefix <> name in
      let forget = try_call V (V.storage_delete key) in
      let finish : Action V (Reply (Unit {0})) = pure empty in
      let (_, dropped, e) = bind-ok (delete_cached_token V name) (λ _. forget >> finish) s h in
      let t = (delete_cached_token V name s).1 in
      let (_, deleted, f) = bind-ok forget (λ _. finish) t (rw e at h) in
      let gone = delete_cached_token-gone L name s dropped in
      rw (e, f)
        (
          L.storage.delete-view key t.world deleted,
          elim (L.storage.view-delete key t.world (cache_storage_prefix <> name)) [
            | inl same ↦ same ∙ gone
            | inr (_, none_left) ↦ none_left
          ],
        )
