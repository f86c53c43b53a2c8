-- ===== src/Engine/Egress.antt =====
-- Where the secrets of a configuration go: the requests that a read of credentials and a rotation
-- send, and where redirects lead from them.
use vault_plugin_secrets_sal.Common.{
  [], ◌∷◌, ◌⊎◌, inl, inr, String, ◌≡◌, ◌∙◌, ap, sym, refl, some, List,
}
use mathlib.Core.Path.{subst}
use vault_plugin_secrets_sal.Errors.{ok}
use vault_plugin_secrets_sal.Config.{Config, effective_token_url}
use vault_plugin_secrets_sal.Role.{Role}
use vault_plugin_secrets_sal.Platform.{Platform, HttpRequest}
use vault_plugin_secrets_sal.Platform.Laws.{IsLawful}
use vault_plugin_secrets_sal.Platform.Exchanges.{LedFrom}
use vault_plugin_secrets_sal.Action.{State, call}
use vault_plugin_secrets_sal.Action.Keeps.{Keeps, Keeps-pure, Keeps-bind}
use vault_plugin_secrets_sal.Action.Yields.{Yields}
use vault_plugin_secrets_sal.Storage.{decoded, get_config, get_role}
use vault_plugin_secrets_sal.Storage.Reads.{get_config-stored, get_role-stored}
use vault_plugin_secrets_sal.Storage.Stored.{SameEntries, stored_role, stored_config}
use vault_plugin_secrets_sal.Storage.Frames.{Keeps-get_config, Keeps-get_role, SameEntries-IsStable}
use vault_plugin_secrets_sal.Client.Targets.{Calls}
use vault_plugin_secrets_sal.Creds.{with_role_config, path_creds_read}
use vault_plugin_secrets_sal.Creds.Targets
use vault_plugin_secrets_sal.Lease.{path_rotate}
use vault_plugin_secrets_sal.Lease.Targets.{Keeps-rotate_locked}
use vault_plugin_secrets_sal.Client.{Form}
use vault_plugin_secrets_sal.Errors.{Reply}
use vault_plugin_secrets_sal.Storage.{put_cached_token, delete_cached_token}
use vault_plugin_secrets_sal.Token.{CachedToken}
use vault_plugin_secrets_sal.Action.{Action}
use vault_plugin_secrets_sal.Engine.{Request, serve_all}
use vault_plugin_secrets_sal.Engine.Invariant.{
  IsVetted, ConfigsVetted, RolesChecked, IsSound, serve_all-IsSound,
}
use vault_plugin_secrets_sal.Action.Ends.{Ends, Ends-Keeps, Ends-option, Ends-bind, Keeps-both}
use vault_plugin_secrets_sal.Engine.Recorded.{
  Adds, none_added, IsSilent, SendsOnly, recorded_calls, silent_put, silent_drop,
}

module _ {V : Platform} {sent : V.World → List HttpRequest}
    {Redirect : HttpRequest → HttpRequest → Type 0} (L : IsLawful V)
    (R : IsSilent V sent Redirect) where
  -- A request to the token endpoint of the configuration that is stored for the stored role, and
  -- the endpoint passes the host check of that configuration.
  abbrev pub IsTarget : State V → String → HttpRequest → Type 0
  IsTarget t name r =
      (role : Role) × (cfg : Config) × (stored_role L t name ≡ ok (some role))
      × (stored_config L t role.config ≡ ok (some cfg))
      × IsVetted V cfg
      × (r.url ≡ effective_token_url cfg)

  -- `Q` holds of such requests.
  module _ (t : State V) (name : String) (vetted : ConfigsVetted L t) (Q : HttpRequest → Type 0)
      (target : (r : HttpRequest) → IsTarget t name r → Q r)
      (waited : Keeps (SendsOnly R (sent t.world) Q) (call V (V.lock name))) where
    abbrev Sending : State V → Type 0
    Sending = SendsOnly R (sent t.world) Q

    abbrev Reading : State V → Type 0
    Reading s = Sending s × SameEntries L t s

    calls : Calls V Sending Q
    calls = recorded_calls R (sent t.world) Q

    put : (ct : CachedToken) → Keeps Sending (put_cached_token V name ct)
    put = silent_put R (sent t.world) Q name

    drop : Keeps Sending (delete_cached_token V name)
    drop = silent_drop R (sent t.world) Q name

    get_role-Reading : Yields Reading (get_role V name) (λ o. stored_role L t name ≡ ok o)
    get_role-Reading = record {
      keeps =
          Keeps-both (Targets.Keeps-get_role calls name)
            (Keeps-get_role L (SameEntries-IsStable L t) name);
      result =
          λ s (_, same) got. ap (decoded V.role_json) (sym (same _)) ∙ get_role-stored L name s got;
    }

    get_config-Reading :
        (n : String) → Yields Reading (get_config V n) (λ o. stored_config L t n ≡ ok o)
    get_config-Reading n = record {
      keeps =
          Keeps-both (Targets.Keeps-get_config calls n)
            (Keeps-get_config L (SameEntries-IsStable L t) n);
      result = λ s (_, same) got.
          ap (decoded V.config_json) (sym (same _)) ∙ get_config-stored L n s got;
    }

    -- The role and the configuration that a handler reads are the stored ones.
    Bound : Role → Config → Type 0
    Bound role cfg =
        (stored_role L t name ≡ ok (some role)) × (stored_config L t role.config ≡ ok (some cfg))

    to_target :
        (role : Role) (cfg : Config)
        → Bound role cfg
        → (form : Form) → Q (record { url = effective_token_url cfg; form = form })
    unfolding Bound
    to_target role cfg (found, bound) form =
        target _ (role, cfg, found, bound, vetted.each role.config cfg bound, refl)

    with_role_config-Sending :
        {A : Type 0} (handle : Config → Role → Action V (Reply A))
        → ((role : Role) (cfg : Config) → Bound role cfg → Keeps Sending (handle cfg role))
        → Ends Reading (with_role_config V name handle) Sending
    unfolding with_role_config Bound
    with_role_config-Sending handle keep =
        let weaker = λ (s : State V) (h : Reading s). h.0 in
        Ends-bind weaker _ _ get_role-Reading λ o found. Ends-option weaker o _ _ λ role is.
          Ends-bind weaker _ _ (get_config-Reading role.config) λ c bound.
            Ends-option weaker c _ _
              λ cfg this. Ends-Keeps weaker _ (keep role cfg (found ∙ ap ok is, bound ∙ ap ok this))

    path_creds_read-Sending : Ends Reading (path_creds_read V name) Sending
    unfolding path_creds_read
    path_creds_read-Sending = with_role_config-Sending _ λ role cfg b.
        Keeps-bind _ _
          (Targets.Keeps-issue_token calls name put drop waited cfg (to_target role cfg b) role)
          λ issued. Keeps-pure _

    path_rotate-Sending :
        ((url token : String) → Q (record { url = url; form = ("token", token) ∷ [] }))
        → Ends Reading (path_rotate V name) Sending
    unfolding path_rotate
    path_rotate-Sending revocation = with_role_config-Sending _ λ role cfg b.
        Keeps-bind _ _ waited λ _.
          Targets.Keeps-then_unlock calls name _
            (Keeps-rotate_locked calls revocation name put drop cfg (to_target role cfg b) role)

  -- After whatever requests to an engine whose stored configurations and roles had passed their
  -- checks before, each request that a read of credentials sends, whether it succeeds or fails,
  -- goes to the token endpoint of the configuration that is stored for the role, which passes the
  -- host check, or is one that redirects lead to from such a request; if what others do while a
  -- request waits for a mint lock keeps the stored records checked, and what they send while the
  -- read waits is so too.
  pub path_creds_read-SendsOnly :
      (waited_configs : (k : String) → Keeps (ConfigsVetted L) (call V (V.lock k)))
      → (waited_roles : (k : String) → Keeps (RolesChecked L) (call V (V.lock k)))
      → (requests : List Request) (s t : State V) (name : String) → IsSound L s
      → serve_all V requests s ≡ t
      → Keeps (SendsOnly R (sent t.world) (IsTarget t name)) (call V (V.lock name))
      → Adds
          (LedFrom Redirect (IsTarget t name))
          (sent t.world)
          (sent (path_creds_read V name t).1.world)
  path_creds_read-SendsOnly waited_configs waited_roles requests s t name sound reached waited =
      let vetted : ConfigsVetted L t =
        subst (ConfigsVetted L) reached
          (serve_all-IsSound L waited_configs waited_roles requests s sound).configs in
      (path_creds_read-Sending t name vetted (IsTarget t name) (λ r h. h) waited).at t
        (none_added, λ j. refl)

  -- A request that holds a token and nothing else.
  abbrev pub IsRevocation : HttpRequest → Type 0
  IsRevocation r = (token : String) × (r.form ≡ ("token", token) ∷ [])

  -- After whatever requests to an engine whose stored configurations and roles had passed their
  -- checks before, each request that a rotation sends, whether it succeeds or fails, holds a token
  -- and nothing else, or goes to the token endpoint of the configuration that is stored for the
  -- role, which passes the host check, or is one that redirects lead to from such a request; if
  -- what others do while a request waits for a mint lock keeps the stored records checked, and
  -- what they send while the rotation waits is so too.
  pub path_rotate-SendsOnly :
      (waited_configs : (k : String) → Keeps (ConfigsVetted L) (call V (V.lock k)))
      → (waited_roles : (k : String) → Keeps (RolesChecked L) (call V (V.lock k)))
      → (requests : List Request) (s t : State V) (name : String) → IsSound L s
      → serve_all V requests s ≡ t
      → Keeps
          (SendsOnly R (sent t.world) (λ r. IsTarget t name r ⊎ IsRevocation r))
          (call V (V.lock name))
      → Adds
          (LedFrom Redirect (λ r. IsTarget t name r ⊎ IsRevocation r))
          (sent t.world)
          (sent (path_rotate V name t).1.world)
  path_rotate-SendsOnly waited_configs waited_roles requests s t name sound reached waited =
      let vetted : ConfigsVetted L t =
        subst (ConfigsVetted L) reached
          (serve_all-IsSound L waited_configs waited_roles requests s sound).configs in
      (path_rotate-Sending t name vetted _ (λ r h. inl h) waited
          (λ url token. inr (token, refl))).at
        t (none_added, λ j. refl)
