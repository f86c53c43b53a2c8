-- ===== src/Role/Storing.antt =====
-- The checks on a role, and its storing, when they succeed.
use vault_plugin_secrets_sal.Common.{
  String, ◌<>◌, ◌≡◌, ◌≢◌, refl, inl, inr, Bool, true, false, if◌then◌else◌, on_nil, Option, none,
  some, arith, ◌⊎◌, eq_iff, Option-cases, text-cases,
}
use vault_plugin_secrets_sal.Common.Text.{role-ne-cache}
use vault_plugin_secrets_sal.Errors.{
  Error, Outcome, ok, fail, Reply, empty, error_response, respond,
}
use vault_plugin_secrets_sal.Config.{Config}
use vault_plugin_secrets_sal.Role.{
  Role, roles_storage_prefix, grant_jwt_bearer, grant_client_credential,
}
use vault_plugin_secrets_sal.Token.{cache_storage_prefix}
use vault_plugin_secrets_sal.Platform.{Platform}
use vault_plugin_secrets_sal.Platform.Laws.{IsLawful}
use vault_plugin_secrets_sal.Action.{Action, State, lift, try_call, pure, ◌>>=◌, ◌>>◌}
use vault_plugin_secrets_sal.Action.Inversion.{bind-ok}
use vault_plugin_secrets_sal.Storage.{get_config, delete_cached_token}
use vault_plugin_secrets_sal.Storage.Stored.{entry, stored_config, stored_role, SameEntries}
use vault_plugin_secrets_sal.Storage.Reads.{decoded_encode, get_config-stored}
use vault_plugin_secrets_sal.Storage.Frames.{
  SameEntries-IsStable, OtherEntries-IsStable, Keeps-delete_cached_token,
}
use vault_plugin_secrets_sal.Storage.Purge.{delete_cached_token-gone}
use vault_plugin_secrets_sal.Role.Handlers.{
  identity_refusal, role_refusal, grant_refusal, config_refusal_for, introspection_warning,
  validate_role, store_role, check_and_store_role,
}
use vault_plugin_secrets_sal.Role.Frames.{Keeps-validate_role}

-- The handler did not reject the request.
abbrev pub is_accepted : {A : Type 0} → Reply A → Bool
is_accepted empty = true
is_accepted (error_response e) = false
is_accepted (respond a) = true

-- What the grant flow of a role needs of its configuration and of the role.
abbrev pub CanMint : Role → Config → Type 0
CanMint role cfg =
    (role.grant_type ≡ grant_jwt_bearer) × (role.username ≢ "") × (cfg.private_key ≢ "")
    ⊎ (role.grant_type ≡ grant_client_credential) × (cfg.client_secret ≢ "")

-- A role that passes both checks has what its flow needs.
pub refusals-CanMint :
    (role : Role) (cfg : Config)
    → role_refusal role ≡ none
    → grant_refusal role cfg ≡ none
    → CanMint role cfg
unfolding role_refusal grant_refusal
refusals-CanMint role cfg h g = elim (text-cases role.grant_type grant_jwt_bearer) [
  | inl (same, e) ↦
      inl (e, ground (arith, eq_iff role.username ""), ground (arith, eq_iff cfg.private_key ""))
  | inr (differ, n) ↦ elim (text-cases role.grant_type grant_client_credential) [
    | inl (also, e) ↦ inr (e, ground (arith, eq_iff cfg.client_secret ""))
    | inr (neither, _) ↦ ground arith
  ]
]

pub identity_refusal-same :
    (old role : Role)
    → identity_refusal (some old) role ≡ none
    → (role.username ≡ old.username) × (role.config ≡ old.config)
unfolding identity_refusal
identity_refusal-same old role h =
    ground (arith, eq_iff role.username old.username, eq_iff role.config old.config)

config_refusal_for-ok :
    (role : Role) (r : Outcome (Option Config))
    → config_refusal_for role r ≡ none
    → (cfg : Config) × (r ≡ ok (some cfg)) × (grant_refusal role cfg ≡ none)
unfolding config_refusal_for
config_refusal_for-ok role (fail e) h = cc
config_refusal_for-ok role (ok none) h = cc
config_refusal_for-ok role (ok (some cfg)) h = (cfg, refl, h)

-- The last step of a store changes nothing, and does not reject.
answer_lem :
    (V : Platform) (b : Bool) (s : State V)
    → let answer : Action V (Reply String) =
        if b then pure (respond (introspection_warning V)) else pure empty in
      ((answer s).1 ≡ s)
      × ((reply : Reply String) → (answer s).0 ≡ ok reply → is_accepted reply ≡ true)
unfolding pure
answer_lem V true s = (refl, λ reply h. ground arith)
answer_lem V false s = (refl, λ reply h. ground arith)

module _ {V : Platform} (L : IsLawful V) where
  pub validate_role-ok :
      (role : Role) (s : State V)
      → (validate_role V role s).0 ≡ ok none
      → (role_refusal role ≡ none)
        × (cfg : Config) × (stored_config L s role.config ≡ ok (some cfg))
        × (grant_refusal role cfg ≡ none)
  unfolding validate_role ◌>>=◌
  validate_role-ok role s h = elim (Option-cases (role_refusal role)) [
    | inl n ↦
        let checked : config_refusal_for role (get_config V role.config s).0 ≡ none =
          ground arith in
        let (cfg, got, g) = config_refusal_for-ok role _ checked in
        (n, cfg, get_config-stored L role.config s got, g)
    | inr (e, r) ↦ cc (h, r)
  ]

  -- What a store of a role has done.
  pub record RoleStored (name : String) (role : Role) (t : State V) : Type 0 where
    pub at_key : stored_role L t name ≡ ok (some role)
    pub token_gone : entry L t (cache_storage_prefix <> name) ≡ none

  pub store_role-ok :
      (name : String) (role : Role) (s : State V) {reply : Reply String}
      → (store_role V name role s).0 ≡ ok reply
      → RoleStored name role (store_role V name role s).1 × (is_accepted reply ≡ true)
  unfolding store_role lift try_call
  store_role-ok name role s {reply} h =
      let key = roles_storage_prefix <> name in
      let put = λ (e : V.Entry). try_call V (V.storage_put key e) in
      let answer : Action V (Reply String) =
        if role.use_introspection then pure (respond (introspection_warning V)) else pure empty in
      let drop = delete_cached_token V name in
      let finish : Action V (Reply String) = drop >> answer in
      let store = λ (e : V.Entry). put e >> finish in
      let (e, encoded, e1) = bind-ok (lift (V.role_json.encode role)) store s h in
      let (_, done, e2) = bind-ok (put e) (λ _. finish) s (rw e1 at h) in
      let t = (put e s).1 in
      let (_, dropped, e3) = bind-ok drop (λ _. answer) t (rw (e1, e2) at h) in
      let (same_state, accepts) = answer_lem V role.use_introspection (drop t).1 in
      let st = OtherEntries-IsStable L (λ (j : String). j ≡ cache_storage_prefix <> name) t in
      let kept =
        (Keeps-delete_cached_token L st name refl).at t (λ _ _. refl) key
          (role-ne-cache name name) in
      (
        rw (e1, e2, e3, same_state)
            (record {
              at_key =
                  rw (kept, L.storage.put-view key e s.world done)
                    (decoded_encode V.role_json L.role_json role encoded);
              token_gone = delete_cached_token-gone L name t dropped;
            }),
        accepts reply (rw (e1, e2, e3) at h),
      )

  pub check_and_store_role-ok :
      (name : String) (role : Role) (s : State V) {reply : Reply String}
      → (check_and_store_role V name role s).0 ≡ ok reply
      → is_accepted reply ≡ true
      → ((validate_role V role s).0 ≡ ok none)
        × ((store_role V name role (validate_role V role s).1).0 ≡ ok reply)
        × (check_and_store_role V name role s ≡ store_role V name role (validate_role V role s).1)
  unfolding check_and_store_role pure
  check_and_store_role-ok name role s h a =
      let next = λ (refusal : Option Error).
        on_nil refusal (store_role V name role) (λ e. pure (error_response e)) in
      let (refusal, got, e1) = bind-ok (validate_role V role) next s h in
      elim (Option-cases refusal) [
        | inl n ↦ (rw (← n) got, rw (e1, n) at h, rw (e1, n))
        | inr (e, r) ↦ cc (r, rw e1 at h, a)
      ]

  -- A role that is rejected there changes no entry.
  pub check_and_store_role-rejected :
      (name : String) (role : Role) (s t : State V) (e : Error)
      → SameEntries L s t
      → (check_and_store_role V name role t).0 ≡ ok (error_response e)
      → SameEntries L s (check_and_store_role V name role t).1
  unfolding check_and_store_role pure
  check_and_store_role-rejected name role s t e same h =
      let next = λ (refusal : Option Error).
        on_nil refusal (store_role V name role) (λ e. pure (error_response e)) in
      let (refusal, got, e1) = bind-ok (validate_role V role) next t h in
      let kept = (Keeps-validate_role L (SameEntries-IsStable L s) role).at t same in
      rw e1 (elim (Option-cases refusal) [
        | inl n ↦ cc (store_role-ok name role _ (rw (e1, n) at h)).1
        | inr (why, r) ↦ rw r kept
      ])
