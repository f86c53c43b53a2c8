-- ===== src/MockServer/Serving.antt =====
-- A platform whose network leads to the fake endpoints, and what engine code does to the server.
use vault_plugin_secrets_sal.Common.{ℕ, ◌≤◌, String, ◌≡◌, refl, none, [], ◌∷◌}
use vault_plugin_secrets_sal.Common.Int.{ℤ, pos}
use vault_plugin_secrets_sal.Errors.{Error, ok}
use vault_plugin_secrets_sal.Role.{Duration}
use vault_plugin_secrets_sal.Platform.{Platform, HttpClient, received}
use vault_plugin_secrets_sal.Client.{Form}
use vault_plugin_secrets_sal.MockServer.{
  Values, form_of, TokenResponse, Body, token_body, MockServer, token_url, handle_token,
}

-- What the server parses of a form with one value for each key.
abbrev pub values_of : Form → Values
values_of [] = []
values_of ((k, v) ∷ form) = (k, v ∷ []) ∷ values_of form

pub form_of-values_of : (form : Form) → form_of (values_of form) ≡ form
unfolding form_of
form_of-values_of [] = refl
form_of-values_of ((k, v) ∷ form) = rw (form_of-values_of form)

module _ (V : Platform) (server : V.World → MockServer) (decimal : ℕ → String)
    (error_text : Error → String) where
  -- A POST of the form to the token endpoint is one run of its handler. A final status comes back
  -- with the encoding of the body, which for a token is parsed to it, and no wait is cut short.
  pub record Serves (form : Form) : Type 0 where
    pub encode : Body → String
    pub answer-token :
        (c : HttpClient) (w : V.World) {n : ℕ}
        → (handle_token decimal error_text (ok (values_of form)) (server w)).0.status ≡ pos n
        → 200 ≤ n
        → n ≤ 599
        → (V.post c (record { url = token_url (server w); form = form }) w).0
          ≡ received n
              (encode (handle_token decimal error_text (ok (values_of form)) (server w)).0.body)
    pub server-token :
        (c : HttpClient) (w : V.World)
        → server (V.post c (record { url = token_url (server w); form = form }) w).1
          ≡ (handle_token decimal error_text (ok (values_of form)) (server w)).1
    pub unmarshal-encode :
        (w : V.World) {r : TokenResponse}
        → (handle_token decimal error_text (ok (values_of form)) (server w)).0.body ≡ token_body r
        → V.unmarshal_token (encode (token_body r))
          ≡ ok (record {
            access_token = r.access_token;
            instance_url = r.instance_url;
            token_type = r.token_type;
            scope = r.scope;
            expires_in = r.expires_in;
          })
    pub server-rand_int63n : (n : ℤ) (w : V.World) → server (V.rand_int63n n w).1 ≡ server w
    pub server-wait : (d : Duration) (w : V.World) → server (V.wait d w).1 ≡ server w
    pub wait-none : (d : Duration) (w : V.World) → (V.wait d w).0 ≡ none
