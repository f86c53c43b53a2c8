-- ===== src/Lease/Outcomes.antt =====
-- What a rotation and the end of a lease leave behind (path_rotate.go, secret_access_token.go).
use vault_plugin_secrets_sal.Common.{
  String, ◌<>◌, ◌≡◌, ◌≢◌, refl, ◌⊎◌, inl, inr, Option, none, some, ne→eq_false,
}
use vault_plugin_secrets_sal.Errors.{ok, Reply, empty, respond}
use vault_plugin_secrets_sal.Config.{Config}
use vault_plugin_secrets_sal.Role.{Role}
use vault_plugin_secrets_sal.Token.{CachedToken, cache_storage_prefix}
use vault_plugin_secrets_sal.Platform.{Platform}
use vault_plugin_secrets_sal.Platform.Laws.{IsLawful}
use vault_plugin_secrets_sal.Action.{Action, State, pure}
use vault_plugin_secrets_sal.Action.Triples.{
  Triple, Any, Triple-Any, Triple-Keeps, Triple-pure, Triple-bind, Triple-option,
}
use vault_plugin_secrets_sal.Storage.{get_role}
use vault_plugin_secrets_sal.Storage.Reads.{get_role-stored}
use vault_plugin_secrets_sal.Action.Inversion.{bind-ok}
use vault_plugin_secrets_sal.Storage.Stored.{entry, stored_role, stored_token}
use vault_plugin_secrets_sal.Storage.Frames.{IsStable, Keeps-log}
use vault_plugin_secrets_sal.Storage.Purge.{delete_cached_token-gone}
use vault_plugin_secrets_sal.Creds.{with_role_config}
use vault_plugin_secrets_sal.Creds.Minting.{
  Holds, Holds-IsStable, mint_and_cache-Holds, Triple-then_unlock,
}
use vault_plugin_secrets_sal.Lease.{
  InternalRole, missing, not_text, role_named, LeaseSecret, with_role_times, renew_for,
  renew_internal, secret_access_token_renew, Rotation, rotate_locked, path_rotate, revoke_lease_of,
  secret_access_token_revoke,
}

module _ {V : Platform} (L : IsLawful V) (name : String) where
  -- A reply of a rotation tells the expiry of the token that is cached.
  abbrev Rotated : Reply Rotation → State V → Type 0
  Rotated reply s =
      (r : Rotation)
      → reply ≡ respond r
      → (ct : CachedToken) × Holds L name ct s × (r.expires_at ≡ ct.expires_at)

  Rotated-IsStable : (reply : Reply Rotation) → IsStable L (λ j. ⊥) (Rotated reply)
  Rotated-IsStable reply = record {
    transfer = λ s t agree h r e.
        let (ct, held, same) = h r e in
        (ct, (Holds-IsStable L name ct).transfer s t agree held, same);
  }

  rotate_locked-Rotated :
      (cfg : Config) (role : Role) → Triple Any (rotate_locked V name cfg role) Rotated
  unfolding rotate_locked
  rotate_locked-Rotated cfg role = Triple-bind _ _ (Triple-Any _) λ _.
      Triple-bind _ _ (Triple-Any _) λ _.
        Triple-bind _ _ (mint_and_cache-Holds L name cfg role) λ ct.
          Triple-bind _ _ (Triple-Keeps _ (Keeps-log L (Holds-IsStable L name ct) _))
            λ _. Triple-pure _ (λ s held r e. (ct, held, cc))

  path_rotate-Rotated : Triple Any (path_rotate V name) Rotated
  unfolding path_rotate with_role_config
  path_rotate-Rotated = Triple-bind _ _ (Triple-Any _) λ role.
      Triple-option role _ _ (Triple-pure _ (λ s _ r e. cc)) λ found.
        Triple-bind _ _ (Triple-Any _) λ cfg.
          Triple-option cfg _ _ (Triple-pure _ (λ s _ r e. cc)) λ c.
            Triple-bind _ _ (Triple-Any _)
              λ _. Triple-then_unlock L name _ Rotated-IsStable (rotate_locked-Rotated c found)

  -- After a rotation that answers with an expiry, the role has a cached token with that expiry.
  path_rotate-cached :
      (s : State V) (r : Rotation)
      → (path_rotate V name s).0 ≡ ok (respond r)
      → (ct : CachedToken) × (stored_token L (path_rotate V name s).1 name ≡ ok (some ct))
        × (r.expires_at ≡ ct.expires_at)
  path_rotate-cached s r h = path_rotate-Rotated.at s tt h r refl

  -- No token is cached for the role.
  abbrev Gone : State V → Type 0
  Gone s = entry L s (cache_storage_prefix <> name) ≡ none

  Gone-IsStable : IsStable L (λ j. ⊥) Gone
  Gone-IsStable = record {
    transfer = λ s t agree h. rw (agree (cache_storage_prefix <> name) (λ x. x)) h;
  }

  revoke_lease_of-Gone : Triple Any (revoke_lease_of V name) (λ _. Gone)
  unfolding revoke_lease_of
  revoke_lease_of-Gone = Triple-bind _ _ (Triple-Any _) λ role. Triple-bind _ _ (Triple-Any _) λ _.
      Triple-bind _ _ (record { at = λ s p h. delete_cached_token-gone L name s h })
        λ _.
          Triple-bind _ _ (Triple-Keeps _ (Keeps-log L Gone-IsStable _))
            λ _. Triple-pure empty (λ s h. h)

  -- After the revocation of a lease of a role that has a name, if it succeeds, no token is cached
  -- for the role.
  secret_access_token_revoke-gone :
      (s : State V) (reply : Reply (Unit {0}))
      → name ≢ ""
      → (secret_access_token_revoke V (role_named name) s).0 ≡ ok reply
      → entry L (secret_access_token_revoke V (role_named name) s).1 (cache_storage_prefix <> name)
        ≡ none
  unfolding secret_access_token_revoke
  secret_access_token_revoke-gone s reply named h =
      let n = ne→eq_false name "" named in
      rw (secret_access_token_revoke, n)
        (revoke_lease_of-Gone.at s tt (rw (secret_access_token_revoke, n) at h))

  -- The answer to a renewal: the lease with the lifetimes of the role that is stored, or the lease
  -- as it was where no role is.
  abbrev pub Renewed : LeaseSecret → State V → Reply LeaseSecret → Type 0
  Renewed secret s reply =
      ((role : Role) × (stored_role L s name ≡ ok (some role))
        × (reply ≡ respond (record secret { ttl = role.ttl; max_ttl = role.max_ttl })))
      ⊎ ((stored_role L s name ≡ ok none) × (reply ≡ respond secret))

  module _ (secret : LeaseSecret) (s : State V) (reply : Reply LeaseSecret) where
    Renewed-times :
        (o : Option Role)
        → stored_role L s name ≡ ok o
        → reply ≡ respond (with_role_times V secret o)
        → Renewed secret s reply
    unfolding with_role_times
    Renewed-times none found h = inr (found, h)
    Renewed-times (some role) found h = inl (role, found, h)

    renew_for-Renewed : (renew_for V secret name s).0 ≡ ok reply → Renewed secret s reply
    unfolding renew_for pure
    renew_for-Renewed h =
        let answer : Option Role → Action V (Reply LeaseSecret) =
          λ o. pure (respond (with_role_times V secret o)) in
        let (o, got, e) = bind-ok (get_role V name) answer s h in
        let same : reply ≡ respond (with_role_times V secret o) = cc (rw e at h) in
        Renewed-times o (get_role-stored L name s got) same

    renew_internal-Renewed :
        (i : InternalRole)
        → i ≡ role_named name
        → (renew_internal V secret i s).0 ≡ ok reply
        → Renewed secret s reply
    unfolding renew_internal
    renew_internal-Renewed missing named h = cc
    renew_internal-Renewed not_text named h = cc
    renew_internal-Renewed (role_named n) named h =
        let same : n ≡ name = cc in renew_for-Renewed (rw same at h)

    -- A renewal of a lease that names a role, if it succeeds, answers with the lease and the
    -- lifetimes of the stored role, or with the lease as it was where no role is stored.
    pub secret_access_token_renew-Renewed :
        secret.internal_role ≡ role_named name
        → (secret_access_token_renew V secret s).0 ≡ ok reply
        → Renewed secret s reply
    unfolding secret_access_token_renew
    secret_access_token_renew-Renewed named h = renew_internal-Renewed secret.internal_role named h
