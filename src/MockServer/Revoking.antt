-- ===== src/MockServer/Revoking.antt =====
-- One revocation (client.go `revokeToken`, cache.go `revokeCachedTokenAtSalesforce`) against the
-- fake revocation endpoint.
use vault_plugin_secrets_sal.Common.{
  ℕ, ◌≤◌, String, ◌<>◌, ◌≡◌, refl, ap, ◌∙◌, false, Option, some, [], ◌∷◌, ◌++◌, ◌==◌, arith,
}
use vault_plugin_secrets_sal.Common.Int.{pos}
use vault_plugin_secrets_sal.Errors.{Error, ok}
use vault_plugin_secrets_sal.Config.{Config, revoke_url}
use vault_plugin_secrets_sal.Platform.{Platform, Codec, HttpClient, HttpRequest, LogLine, received}
use vault_plugin_secrets_sal.Platform.Laws.{IsLawful}
use vault_plugin_secrets_sal.Action.{lift, call, try_call, ◌>>=◌}
use vault_plugin_secrets_sal.Action.Views.{Goes, Goes-lift, Goes-bind, Goes-call, Goes-attempt}
use vault_plugin_secrets_sal.Storage.{decoded}
use vault_plugin_secrets_sal.Client.{Form, http_client_for, revoke_token, revoke_result}
use vault_plugin_secrets_sal.Lease.{log_revocation, revoke_with_config}
use vault_plugin_secrets_sal.MockServer.{
  MockServer, Body, no_body, form_of, form_get, handle_revoke,
}
use vault_plugin_secrets_sal.MockServer.Serving.{values_of}

module _ {V : Platform} (L : IsLawful V) (server : V.World → MockServer) (decimal : ℕ → String)
    (error_text : Error → String) where
  -- A POST to the revocation endpoint is one run of its handler, nothing else changes the server,
  -- and the storage can be read.
  pub record Revokes : Type 0 where
    pub encode : Body → String
    pub answer-revoke :
        (c : HttpClient) (form : Form) (w : V.World) {n : ℕ}
        → (handle_revoke decimal error_text (ok (values_of form)) (server w)).0.status ≡ pos n
        → 200 ≤ n
        → n ≤ 599
        → (V.post c
            (record { url = (server w).server_url <> "/services/oauth2/revoke"; form = form })
            w).0
          ≡ received n
              (encode (handle_revoke decimal error_text (ok (values_of form)) (server w)).0.body)
    pub server-revoke :
        (c : HttpClient) (form : Form) (w : V.World)
        → server
            (V.post c
              (record { url = (server w).server_url <> "/services/oauth2/revoke"; form = form })
              w).1
          ≡ (handle_revoke decimal error_text (ok (values_of form)) (server w)).1
    pub get-returns :
        (k : String) (w : V.World) → (o : Option V.Entry) × ((V.storage_get k w).0 ≡ ok o)
    pub server-get : (k : String) (w : V.World) → server (V.storage_get k w).1 ≡ server w
    pub server-delete : (k : String) (w : V.World) → server (V.storage_delete k w).1 ≡ server w
    pub server-log : (l : LogLine) (w : V.World) → server (V.log l w).1 ≡ server w

  module _ (R : Revokes) (k1 k2 k3 : String) where
    -- The server and three entries.
    abbrev pub see : V.World → MockServer × Option V.Entry × Option V.Entry × Option V.Entry
    see w = (server w, L.view w k1, L.view w k2, L.view w k3)

    see-get : (k : String) (w : V.World) → see (V.storage_get k w).1 ≡ see w
    see-get k w =
        rw
          (
            R.server-get k w,
            L.storage.view-get k w k1,
            L.storage.view-get k w k2,
            L.storage.view-get k w k3,
          )
          refl

    -- A record that is stored is read.
    pub read-Goes :
        {A : Type 0} (codec : Codec V.Entry A) (k : String) (a : Option A)
        (x : MockServer × Option V.Entry × Option V.Entry × Option V.Entry)
        → ((w : V.World) → see w ≡ x → decoded codec (L.view w k) ≡ ok a)
        → Goes see x (try_call V (V.storage_get k) >>= λ e. lift (decoded codec e)) (ok a) x
    unfolding try_call lift ◌>>=◌
    read-Goes codec k a x stored = record {
      at = λ s here.
          let (o, got) = R.get-returns k s.world in
          let held = stored s.world here in
          let same = L.storage.get-view k s.world got in
          (rw got (rw (← same) at held), rw got (see-get k s.world ∙ here));
    }

    log-Goes :
        (l : LogLine) (x : MockServer × Option V.Entry × Option V.Entry × Option V.Entry)
        → Goes see x (call V (V.log l)) (ok tt) x
    log-Goes l x = Goes-call see x _ tt x λ w here. (
      refl,
      rw
          (
            R.server-log l w,
            L.quiet.view-log l w k1,
            L.quiet.view-log l w k2,
            L.quiet.view-log l w k3,
          )
          here,
    )

    module _ (m : MockServer) (e1 e2 e3 : Option V.Entry) where
      abbrev pub at_server :
          MockServer → MockServer × Option V.Entry × Option V.Entry × Option V.Entry
      at_server n = (n, e1, e2, e3)

      -- The server with one more revoked token.
      abbrev pub and_revoked : String → MockServer
      and_revoked token = record m { revoked_tokens = m.revoked_tokens ++ token ∷ [] }

      handle_revoke-token :
          (token : String)
          → handle_revoke decimal error_text (ok (values_of (("token", token) ∷ []))) m
            ≡ (record { status = pos 200; body = no_body; slept = pos 0 }, and_revoked token)
      unfolding handle_revoke form_of form_get
      handle_revoke-token token = refl

      module _ (cfg : Config) (client : HttpClient) (token : String)
          (settings : http_client_for V cfg ≡ ok client)
          (requestable : V.new_request (revoke_url cfg) ≡ ok tt)
          (there : m.server_url <> "/services/oauth2/revoke" ≡ revoke_url cfg)
          (named : (token == "") ≡ false) where
        post-Goes :
            Goes see
              (at_server m)
              (call V
                (V.post client (record { url = revoke_url cfg; form = ("token", token) ∷ [] })))
              (ok (received 200 (R.encode no_body)))
              (at_server (and_revoked token))
        post-Goes = Goes-call see _ _ _ (at_server (and_revoked token)) λ w here.
            let run = handle_revoke-token token in
            let form : Form = ("token", token) ∷ [] in
            let request : HttpRequest = record { url = revoke_url cfg; form = form } in
            let server_here : server w ≡ m = ap (λ x. x.0) here in
            let answer =
              R.answer-revoke client form w {n = 200} (rw (server_here, run) refl) (omega arith)
                (omega arith) in
            let next = R.server-revoke client form w in
            (
              rw (server_here, run, there) at answer,
              rw
                  (
                    rw (server_here, run, there) at next,
                    L.quiet.view-post client request w k1 ∙ ap (λ x. x.1) here,
                    L.quiet.view-post client request w k2 ∙ ap (λ x. x.2) here,
                    L.quiet.view-post client request w k3 ∙ ap (λ x. x.3) here,
                  )
                  refl,
            )

        revoke_token-Goes :
            Goes see
              (at_server m)
              (revoke_token V cfg token)
              (ok tt)
              (at_server (and_revoked token))
        unfolding revoke_token revoke_result
        revoke_token-Goes = rw named (
            Goes-bind see _ _ _ (at_server m) _ (rw settings (Goes-lift see _ (ok client))) (
              Goes-bind see _ _ _ (at_server m) _ (rw requestable (Goes-lift see _ (ok tt))) (
                Goes-bind see _ _ _ (at_server (and_revoked token)) _ post-Goes
                  (Goes-lift see _ (ok tt)))))

        pub revoke_with_config-Goes :
            (name : String)
            → Goes see
                (at_server m)
                (revoke_with_config V name token (ok (some cfg)))
                (ok tt)
                (at_server (and_revoked token))
        unfolding revoke_with_config log_revocation
        revoke_with_config-Goes name =
            Goes-bind see _ _ _ (at_server (and_revoked token)) _
              (Goes-attempt see _ revoke_token-Goes) (log-Goes _ _)
