-- ===== src/Role/Updates.antt =====
-- Updates of a stored role (path_roles.go pathRoleWrite): which leave it as it is, and which the
-- defaults of an absent field get in the way of.
use vault_plugin_secrets_sal.Common.{
  ℕ, String, ◌≡◌, refl, ap, ◌∙◌, true, false, none, some, Bool-cases, inl, inr, arith, ◌<◌, ◌≤◌,
}
use vault_plugin_secrets_sal.Common.Int.{ℤ, pos, ◌*ℤ◌, InRange, wrap_int64}
use vault_plugin_secrets_sal.Errors.{ok, Reply, respond}
use vault_plugin_secrets_sal.Role.{Role, Duration, of_seconds}
use vault_plugin_secrets_sal.Platform.{Platform}
use vault_plugin_secrets_sal.Platform.Laws.{IsLawful}
use vault_plugin_secrets_sal.Action.{State}
use vault_plugin_secrets_sal.Storage.Stored.{stored_role}
use vault_plugin_secrets_sal.Role.Handlers.{
  RoleFields, RoleData, role_data, merge_role, or_no_role, whole_seconds, seconds_or,
  seconds_or_default, path_role_write, path_role_read,
}
use vault_plugin_secrets_sal.Role.Reads.{whole_seconds-of_seconds, path_role_read-stored_role}
use vault_plugin_secrets_sal.Token.Expiry.{role_refusal-skew}
use vault_plugin_secrets_sal.Role.Storing.{is_accepted}
use vault_plugin_secrets_sal.Role.Writes.{path_role_write-stored_role}

-- The write that supplies each field with the value that a read answered.
abbrev pub resupplied : String → RoleData → RoleFields
resupplied name values = record {
  name = name;
  config = some values.config;
  grant_type = some values.grant_type;
  username = some values.username;
  scopes = some values.scopes;
  token_ttl = some values.token_ttl;
  ttl = some values.ttl;
  max_ttl = some values.max_ttl;
  renew_skew = some values.renew_skew;
  jwt_expiry = some values.jwt_expiry;
  audience = some values.audience;
  use_introspection = some values.use_introspection;
  revoke_tokens = some values.revoke_tokens;
}

-- A whole number of seconds that fits.
abbrev pub IsWhole : Duration → Type 0
IsWhole d = (n : ℤ) × InRange (n *ℤ pos 1_000_000_000) × (d ≡ of_seconds n)

pub record HasWholeTimes (r : Role) : Type 0 where
  pub token_ttl : IsWhole r.token_ttl
  pub ttl : IsWhole r.ttl
  pub max_ttl : IsWhole r.max_ttl
  pub renew_skew : IsWhole r.renew_skew
  pub jwt_expiry : IsWhole r.jwt_expiry

of_seconds-whole_seconds : (d : Duration) → IsWhole d → of_seconds (whole_seconds d) ≡ d
of_seconds-whole_seconds d (n, fits, e) = rw (e, whole_seconds-of_seconds n fits) refl

merge_role-resupplied :
    (name : String) (r old : Role)
    → HasWholeTimes r
    → merge_role (resupplied name (role_data r)) old ≡ r
unfolding merge_role role_data seconds_or seconds_or_default
merge_role-resupplied name r old w =
    rw
      (
        of_seconds-whole_seconds r.token_ttl w.token_ttl,
        of_seconds-whole_seconds r.ttl w.ttl,
        of_seconds-whole_seconds r.max_ttl w.max_ttl,
        of_seconds-whole_seconds r.renew_skew w.renew_skew,
        of_seconds-whole_seconds r.jwt_expiry w.jwt_expiry,
      )
      refl

merge_role-zero_skew :
    (d : RoleFields) (old : Role) (lifetime : ℕ)
    → old.renew_skew ≡ pos 0
    → old.token_ttl ≡ pos lifetime
    → 0 < lifetime
    → d.renew_skew ≡ none
    → d.token_ttl ≡ none
    → ((merge_role d old).renew_skew ≡ pos 60_000_000_000)
      × ((merge_role d old).token_ttl ≡ pos lifetime)
unfolding merge_role seconds_or_default of_seconds wrap_int64 ◌*ℤ◌
merge_role-zero_skew d old lifetime skew ttl positive no_skew no_ttl =
    (rw (no_skew, skew) refl, rw (no_ttl, ttl) (ground arith))

module _ {V : Platform} (L : IsLawful V) where
  -- A role whose times are whole numbers of seconds stays as it is when the fields that a read
  -- answered with are written back, in any later state and by a write that is accepted; also where
  -- the role was deleted in between.
  pub path_role_write-read_back :
      (name : String) (s t : State V) (r : Role) (values : RoleData) (reply : Reply String)
      → stored_role L s name ≡ ok (some r)
      → HasWholeTimes r
      → (path_role_read V name s).0 ≡ ok (respond values)
      → (path_role_write V (resupplied name values) t).0 ≡ ok reply
      → is_accepted reply ≡ true
      → stored_role L (path_role_write V (resupplied name values) t).1 name ≡ ok (some r)
  path_role_write-read_back name s t r values reply held whole read answered accepted =
      let (o, was, e) = path_role_read-stored_role L name s (respond values) read in
      let here : o ≡ some r = cc (was, held) in
      let same : values ≡ role_data r = cc (rw here at e) in
      let (old, _, _, now, _) =
        path_role_write-stored_role L (resupplied name values) t reply answered accepted in
      let merged : merge_role (resupplied name values) (or_no_role old) ≡ r =
        rw same (merge_role-resupplied name r (or_no_role old) whole) in
      now ∙ ap (λ x. ok (some x)) merged

  -- A role that asks for no renew skew and a lifetime of at most a minute cannot be updated by a write that supplies neither: the skew's default
  -- takes the place of the zero, and reaches the lifetime.
  pub path_role_write-zero_skew :
      (d : RoleFields) (s : State V) (old : Role) (lifetime : ℕ)
      → stored_role L s d.name ≡ ok (some old)
      → old.renew_skew ≡ pos 0
      → old.token_ttl ≡ pos lifetime
      → 0 < lifetime
      → lifetime ≤ 60_000_000_000
      → d.renew_skew ≡ none
      → d.token_ttl ≡ none
      → (reply : Reply String) → (path_role_write V d s).0 ≡ ok reply
      → is_accepted reply ≡ false
  path_role_write-zero_skew d s old lifetime held skew ttl positive short no_skew no_ttl reply
        answered =
      elim (Bool-cases (is_accepted reply)) [
        | inr f ↦ f
        | inl accepted ↦
            let (o, was, passed, _, _) =
              path_role_write-stored_role L d s reply answered accepted in
            let here : o ≡ some old = cc (was, held) in
            let (skew_now, ttl_now) =
              merge_role-zero_skew d old lifetime skew ttl positive no_skew no_ttl in
            let (_, less) = role_refusal-skew (merge_role d old) (rw here at passed) in
            let less_now = rw (skew_now, ttl_now) at less in
            let reached = less_now (omega arith) in absurd (omega arith)
      ]
