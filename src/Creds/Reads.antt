-- ===== src/Creds/Reads.antt =====
-- What a read of creds/<name> answers with (path_creds.go `pathCredsRead`).
use vault_plugin_secrets_sal.Common.{
  String, ◌≡◌, ◌∙◌, refl, sym, ap, Bool, false, Option, none, some, on_nil,
}
use mathlib.Core.Path.{subst}
use vault_plugin_secrets_sal.Errors.{ok, Reply, error_response, respond}
use vault_plugin_secrets_sal.Config.{Config}
use vault_plugin_secrets_sal.Role.{Role}
use vault_plugin_secrets_sal.Token.{CachedToken}
use vault_plugin_secrets_sal.Platform.{Platform}
use vault_plugin_secrets_sal.Platform.Laws.{IsLawful}
use vault_plugin_secrets_sal.Action.{State, pure, ◌>>=◌}
use vault_plugin_secrets_sal.Action.Triples.{Triple, Triple-pure, Triple-bind}
use vault_plugin_secrets_sal.Storage.{get_role, get_config, decoded}
use vault_plugin_secrets_sal.Storage.Stored.{SameEntries, stored_role, stored_config, stored_token}
use vault_plugin_secrets_sal.Storage.Reads.{get_role-stored, get_config-stored}
use vault_plugin_secrets_sal.Storage.Frames.{SameEntries-IsStable, Keeps-get_role, Keeps-get_config}
use vault_plugin_secrets_sal.Creds.{
  IssuedSecret, secret_response, no_such_role, no_such_config, issue_token, with_role_config,
  path_creds_read,
}
use vault_plugin_secrets_sal.Creds.Afresh.{MintedFor}
use vault_plugin_secrets_sal.Creds.Held.{IsHeld, issue_token-IsHeld}

module _ {V : Platform} (L : IsLawful V) (name : String) (s : State V) where
  -- What the reader of a role gets of a token.
  abbrev pub told : Role → CachedToken → Bool → IssuedSecret
  told role ct cached = record {
    access_token = ct.access_token;
    instance_url = ct.instance_url;
    token_type = ct.token_type;
    expires_at = ct.expires_at;
    grant_type = role.grant_type;
    cached = cached;
    role = name;
    ttl = role.ttl;
    max_ttl = role.max_ttl;
  }

  -- A reading while the entries are those of `s`.
  get_role-Same :
      Triple
        (SameEntries L s)
        (get_role V name)
        (λ o t. SameEntries L s t × (stored_role L s name ≡ ok o))
  get_role-Same = record {
    at = λ t same h. (
      (Keeps-get_role L (SameEntries-IsStable L s) name).at t same,
      ap (decoded V.role_json) (sym (same _)) ∙ get_role-stored L name t h,
    );
  }

  get_config-Same :
      (role : Role)
      → Triple
          (λ t. SameEntries L s t × (stored_role L s name ≡ ok (some role)))
          (get_config V role.config)
          (λ o t.
            SameEntries L s t
            × ((stored_role L s name ≡ ok (some role)) × (stored_config L s role.config ≡ ok o)))
  get_config-Same role = record {
    at = λ t (same, found) h. (
      (Keeps-get_config L (SameEntries-IsStable L s) role.config).at t same,
      (found, ap (decoded V.config_json) (sym (same _)) ∙ get_config-stored L role.config t h),
    );
  }

  -- `Issued` is what is known of a token that is issued for the stored role under its stored
  -- configuration.
  module _ (Issued : Role → Config → CachedToken × Bool → State V → Type 0)
      (issue : (role : Role) (cfg : Config)
        → Triple (SameEntries L s) (issue_token V name cfg role) (Issued role cfg)) where
    -- The role and the configuration that were stored, and the token.
    abbrev pub Granted : IssuedSecret → State V → Type 0
    Granted secret t =
        (role : Role) × (cfg : Config) × (ct : CachedToken) × (stored_role L s name
          ≡ ok (some role))
        × (stored_config L s role.config ≡ ok (some cfg))
        × (secret ≡ told role ct secret.cached)
        × Issued role cfg (ct, secret.cached) t

    abbrev Answer : Reply IssuedSecret → State V → Type 0
    Answer reply t = (secret : IssuedSecret) → reply ≡ respond secret → Granted secret t

    module _ (role : Role) where
      abbrev Bound : Option Config → Type 0
      Bound o = (stored_role L s name ≡ ok (some role)) × (stored_config L s role.config ≡ ok o)

      issue_token-Bound :
          (cfg : Config)
          → Triple
              (λ t. SameEntries L s t × Bound (some cfg))
              (issue_token V name cfg role)
              (λ r t. Bound (some cfg) × Issued role cfg r t)
      issue_token-Bound cfg = record { at = λ t (same, p) h. (p, (issue role cfg).at t same h) }

      respond-Answer :
          (cfg : Config) (r : CachedToken × Bool) (t : State V)
          → Bound (some cfg) × Issued role cfg r t
          → Answer (respond (secret_response V name role r)) t
      unfolding secret_response
      respond-Answer cfg (ct, cached) t ((found, bound), issued) secret e =
          let same : secret_response V name role (ct, cached) ≡ secret = cc in
          let flag : cached ≡ secret.cached = ap (λ x. x.cached) same in
          (
            role,
            cfg,
            ct,
            found,
            bound,
            sym same ∙ ap (told role ct) flag,
            subst (λ b. Issued role cfg (ct, b) t) flag issued,
          )

      after_config-Answer :
          (o : Option Config)
          → Triple
              (λ t. SameEntries L s t × Bound o)
              (on_nil o (pure (error_response (no_such_config V role.config name))) (λ cfg.
                issue_token V name cfg role >>= λ r.
                pure (respond (secret_response V name role r))))
              Answer
      after_config-Answer none = Triple-pure _ (λ t p secret e. cc)
      after_config-Answer (some cfg) =
          Triple-bind _ _ (issue_token-Bound cfg) λ r. Triple-pure _ (respond-Answer cfg r)

    after_role-Answer :
        (o : Option Role)
        → Triple
            (λ t. SameEntries L s t × (stored_role L s name ≡ ok o))
            (on_nil o (pure (error_response (no_such_role V name))) (λ role.
              get_config V role.config >>= λ cfg.
              on_nil cfg (pure (error_response (no_such_config V role.config name))) (λ c.
                issue_token V name c role >>= λ r. pure (respond (secret_response V name role r)))))
            Answer
    after_role-Answer none = Triple-pure _ (λ t p secret e. cc)
    after_role-Answer (some role) =
        Triple-bind _ _ (get_config-Same role) (after_config-Answer role)

    -- What is known of the tokens that are issued is known of the one in an answer.
    pub path_creds_read-Granted :
        (secret : IssuedSecret)
        → (path_creds_read V name s).0 ≡ ok (respond secret)
        → Granted secret (path_creds_read V name s).1
    unfolding path_creds_read with_role_config
    path_creds_read-Granted secret h =
        (Triple-bind _ _ get_role-Same after_role-Answer).at s (λ j. refl) h secret refl

  -- A read of credentials that answers with a token names the stored role: it has a token's fields
  -- and the times and the grant of the role, and the token is the cached one of the role after the
  -- read; one that is not said to come from the cache was minted for the stored role under its
  -- stored configuration.
  pub path_creds_read-granted :
      (secret : IssuedSecret)
      → (path_creds_read V name s).0 ≡ ok (respond secret)
      → (role : Role) × (cfg : Config) × (ct : CachedToken) × (stored_role L s name
          ≡ ok (some role))
        × (stored_config L s role.config ≡ ok (some cfg))
        × (secret ≡ told role ct secret.cached)
        × (stored_token L (path_creds_read V name s).1 name ≡ ok (some ct))
        × (secret.cached ≡ false → MintedFor V cfg role ct)
  path_creds_read-granted secret answered =
      let (role, cfg, ct, found, bound, same, (held, minted)) =
        path_creds_read-Granted (λ role cfg. IsHeld L name cfg role)
          (λ role cfg. record { at = λ t same h. (issue_token-IsHeld L name cfg role).at t tt h })
          secret answered in
      (role, cfg, ct, found, bound, same, held, minted)
