-- ===== src/Config/Endpoints.antt =====
-- The endpoints of a configuration (path_config.go `tokenURL`, `revokeURL`), which of its URLs the
-- checks of a write cover, and what its redacted view shows.
use text.Mathlib.TextLemmas.{append_assoc}
use vault_plugin_secrets_sal.Common.{
  String, ◌<>◌, ◌≡◌, ◌≢◌, refl, false, ◌==◌, none, some, arith, ne→eq_false,
}
use vault_plugin_secrets_sal.Common.Text.{
  has_suffix, trim_suffix, trim_slashes, strip_suffix_of_append,
}
use vault_plugin_secrets_sal.Config.{Config, effective_token_url, revoke_url, redacted_map}
use vault_plugin_secrets_sal.Config.Handlers.{
  ConfigFields, config_refusal, must_re_supply, merge_config,
}
use vault_plugin_secrets_sal.Platform.{Platform}
use vault_plugin_secrets_sal.HostCheck.{validate_token_host}

-- Where the token endpoint ends in "/token", the revocation endpoint is its sibling.
revoke_url-sibling :
    (c : Config) (base : String)
    → effective_token_url c ≡ base <> "/token"
    → revoke_url c ≡ base <> "/revoke"
unfolding revoke_url has_suffix trim_suffix
revoke_url-sibling c base h =
    rw (h, has_suffix, trim_suffix, strip_suffix_of_append "/token" base) refl

-- Without an override, the token endpoint and the revocation endpoint are "/token" and "/revoke"
-- below the login URL, less its last slashes, and "/services/oauth2".
revoke_url-default :
    (c : Config)
    → c.token_url ≡ ""
    → (base : String) × (base ≡ trim_slashes c.login_url <> "/services/oauth2")
      × (effective_token_url c ≡ base <> "/token")
      × (revoke_url c ≡ base <> "/revoke")
unfolding effective_token_url
revoke_url-default c h =
    let base = trim_slashes c.login_url <> "/services/oauth2" in
    let token : effective_token_url c ≡ base <> "/token" =
      rw (h, append_assoc (trim_slashes c.login_url) "/services/oauth2" "/token") refl in
    (base, refl, token, revoke_url-sibling c base token)

-- With an override that does not end in "/token", the revocation endpoint comes from the login URL,
-- and a new configuration that passes the checks passes them with any other login URL.
pub revoke_url-unchecked :
    (V : Platform) (d : ConfigFields) (c : Config) (url : String)
    → c.token_url ≢ ""
    → has_suffix c.token_url "/token" ≡ false
    → url ≢ ""
    → config_refusal V none d c ≡ none
    → (config_refusal V none d (record c { login_url = url }) ≡ none)
      × (revoke_url (record c { login_url = url }) ≡ trim_slashes url <> "/services/oauth2/revoke")
unfolding config_refusal must_re_supply effective_token_url revoke_url
revoke_url-unchecked V d c url override other given accepted =
    let n = ne→eq_false c.token_url "" override in
    let u = ne→eq_false url "" given in (ground (arith, n, u), rw (n, other) refl)

-- The redacted view depends on the secrets only through whether they are set.
pub redacted_map-hides :
    (c : Config) (secret key : String)
    → (secret == "") ≡ (c.client_secret == "")
    → (key == "") ≡ (c.private_key == "")
    → redacted_map (record c { client_secret = secret; private_key = key }) ≡ redacted_map c
unfolding redacted_map effective_token_url
redacted_map-hides c secret key h k = rw (h, k) refl

-- An update that supplies a private key and no client secret passes the checks with any token
-- endpoint that the host check lets through, and keeps the stored client secret.
pub config_refusal-partial :
    (V : Platform) (old : Config) (d : ConfigFields) (key : String)
    → d.client_secret ≡ none
    → d.private_key ≡ some key
    → (merge_config d old).login_url ≢ ""
    → (merge_config d old).client_id ≢ ""
    → validate_token_host V
        (effective_token_url (merge_config d old))
        (merge_config d old).allow_non_salesforce_host
      ≡ none
    → (config_refusal V (some old) d (merge_config d old) ≡ none)
      × ((merge_config d old).client_secret ≡ old.client_secret)
unfolding config_refusal must_re_supply merge_config
config_refusal-partial V old d key omitted given url id host =
    let u = ne→eq_false (merge_config d old).login_url "" url in
    let i = ne→eq_false (merge_config d old).client_id "" id in
    (rw (u, i, omitted, given) (ground (arith, host)), rw omitted refl)
