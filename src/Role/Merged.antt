-- ===== src/Role/Merged.antt =====
-- What an accepted write of roles/<name> stores, field by field (path_roles.go `pathRoleWrite`).
use vault_plugin_secrets_sal.Common.{
  ℕ, zero, suc, String, ◌<>◌, ◌≡◌, refl, true, Option, none, some, arith,
}
use vault_plugin_secrets_sal.Common.Int.{ℤ, pos, negsuc}
use vault_plugin_secrets_sal.Common.Supplied.{
  Replaced, taken, kept, ReplacedTime, taken_seconds, kept_time, DefaultedTime, given_seconds,
  set_default, not_zero,
}
use vault_plugin_secrets_sal.Errors.{ok, Reply}
use vault_plugin_secrets_sal.Role.{Role, of_seconds}
use vault_plugin_secrets_sal.Token.{cache_storage_prefix}
use vault_plugin_secrets_sal.Platform.{Platform}
use vault_plugin_secrets_sal.Platform.Laws.{IsLawful}
use vault_plugin_secrets_sal.Action.{State}
use vault_plugin_secrets_sal.Storage.Stored.{entry, stored_role}
use vault_plugin_secrets_sal.Role.Handlers.{
  RoleFields, supplied_or, seconds_or, seconds_or_default, merge_role, or_no_role, role_refusal,
  path_role_write,
}
use vault_plugin_secrets_sal.Role.Storing.{is_accepted}
use vault_plugin_secrets_sal.Role.Writes.{path_role_write-stored_role}

-- Each field of `new` is the supplied one, or the one of `old`; three times have a default.
pub record RoleUpdated (d : RoleFields) (old new : Role) : Type 0 where
  config : Replaced d.config old.config new.config
  grant_type : Replaced d.grant_type old.grant_type new.grant_type
  username : Replaced d.username old.username new.username
  scopes : Replaced d.scopes old.scopes new.scopes
  audience : Replaced d.audience old.audience new.audience
  use_introspection : Replaced d.use_introspection old.use_introspection new.use_introspection
  revoke_tokens : Replaced d.revoke_tokens old.revoke_tokens new.revoke_tokens
  ttl : ReplacedTime d.ttl old.ttl new.ttl
  max_ttl : ReplacedTime d.max_ttl old.max_ttl new.max_ttl
  token_ttl : DefaultedTime 900 d.token_ttl old.token_ttl new.token_ttl
  renew_skew : DefaultedTime 60 d.renew_skew old.renew_skew new.renew_skew
  jwt_expiry : DefaultedTime 180 d.jwt_expiry old.jwt_expiry new.jwt_expiry

supplied_or-Replaced {ℓ} :
    {A : Type ℓ} (o : Option A) (old : A) → Replaced o old (supplied_or o old)
supplied_or-Replaced none old = kept
supplied_or-Replaced (some v) old = taken

seconds_or-ReplacedTime : (o : Option ℤ) (old : ℤ) → ReplacedTime o old (seconds_or o old)
unfolding seconds_or of_seconds
seconds_or-ReplacedTime none old = kept_time
seconds_or-ReplacedTime (some v) old = taken_seconds

seconds_or_default-positive :
    (n k : ℕ) → seconds_or_default none (pos n) (pos (suc k)) ≡ pos (suc k)
unfolding seconds_or_default
seconds_or_default-positive n k = ground arith

seconds_or_default-negative : (n k : ℕ) → seconds_or_default none (pos n) (negsuc k) ≡ negsuc k
unfolding seconds_or_default
seconds_or_default-negative n k = ground arith

seconds_or_default-DefaultedTime :
    (n : ℕ) (o : Option ℤ) (old : ℤ) → DefaultedTime n o old (seconds_or_default o (pos n) old)
unfolding seconds_or_default of_seconds
seconds_or_default-DefaultedTime n (some v) old = given_seconds
seconds_or_default-DefaultedTime n none (pos zero) = set_default refl
seconds_or_default-DefaultedTime n none (pos (suc k)) =
    rw (seconds_or_default-positive n k) (not_zero (λ e. cc))
seconds_or_default-DefaultedTime n none (negsuc k) =
    rw (seconds_or_default-negative n k) (not_zero (λ e. cc))

merge_role-RoleUpdated : (d : RoleFields) (old : Role) → RoleUpdated d old (merge_role d old)
unfolding merge_role
merge_role-RoleUpdated d old = record {
  config = supplied_or-Replaced d.config old.config;
  grant_type = supplied_or-Replaced d.grant_type old.grant_type;
  username = supplied_or-Replaced d.username old.username;
  scopes = supplied_or-Replaced d.scopes old.scopes;
  audience = supplied_or-Replaced d.audience old.audience;
  use_introspection = supplied_or-Replaced d.use_introspection old.use_introspection;
  revoke_tokens = supplied_or-Replaced d.revoke_tokens old.revoke_tokens;
  ttl = seconds_or-ReplacedTime d.ttl old.ttl;
  max_ttl = seconds_or-ReplacedTime d.max_ttl old.max_ttl;
  token_ttl = seconds_or_default-DefaultedTime 900 d.token_ttl old.token_ttl;
  renew_skew = seconds_or_default-DefaultedTime 60 d.renew_skew old.renew_skew;
  jwt_expiry = seconds_or_default-DefaultedTime 180 d.jwt_expiry old.jwt_expiry;
}

-- After a write of a role that is accepted, each field of the stored role is the supplied one, or
-- the one that was stored before (of the zero role, if none was), where a token_ttl, renew_skew or
-- jwt_expiry of zero becomes 900, 60 or 180 seconds; it passes the checks on its fields, and its
-- cached token is gone.
pub path_role_write-RoleUpdated :
    {V : Platform} (L : IsLawful V) (d : RoleFields) (s : State V) (reply : Reply String)
    → (path_role_write V d s).0 ≡ ok reply
    → is_accepted reply ≡ true
    → (old : Option Role) × (new : Role) × (stored_role L s d.name ≡ ok old)
      × (stored_role L (path_role_write V d s).1 d.name ≡ ok (some new))
      × RoleUpdated d (or_no_role old) new
      × (role_refusal new ≡ none)
      × (entry L (path_role_write V d s).1 (cache_storage_prefix <> d.name) ≡ none)
path_role_write-RoleUpdated L d s reply answered accepted =
    let (old, was, passed, now, gone) = path_role_write-stored_role L d s reply answered accepted in
    let new = merge_role d (or_no_role old) in
    (old, new, was, now, merge_role-RoleUpdated d (or_no_role old), passed, gone)
