-- ===== src/HostCheck.antt =====
-- hostcheck.go: which token endpoints a configuration may name.
pub mod Allowed
use vault_plugin_secrets_sal.Common.{
  String, Bool, true, false, not, ◌&&◌, Option, none, some, List, [], ◌∷◌, ◌==◌, if◌then◌else◌,
}
use vault_plugin_secrets_sal.Common.Text.{has_suffix}
use vault_plugin_secrets_sal.Errors.{ok, fail, Error, errorf, wrapped, text}
use vault_plugin_secrets_sal.Platform.{Platform, Url}

abbrev pub salesforce_host_suffixes : List String
salesforce_host_suffixes = ".salesforce.com" ∷ ".force.com" ∷ ".salesforce.mil" ∷ []

-- The loop over the suffixes.
unfoldable pub has_any_suffix : String → List String → Bool
has_any_suffix host [] = false
has_any_suffix host (suffix ∷ rest) =
    let others = has_any_suffix host rest in if has_suffix host suffix then true else others

module _ (V : Platform) where
  unfoldable pub is_loopback_host : String → Bool
  is_loopback_host host =
      if host == "localhost"
      then true
      else elim (V.parse_ip host) [ none ↦ false | some loopback ↦ loopback ]

  -- `validateTokenHost` once the URL is parsed.
  unfoldable pub check_url : String → Bool → Url → Option Error
  unfolding is_loopback_host has_any_suffix
  check_url raw_url allow_non_salesforce u =
      let host = V.to_lower u.hostname in
      if host == ""
      then some (errorf "token endpoint URL %q has no host" (text raw_url ∷ []))
      else if not (u.scheme == "https") && not (is_loopback_host host)
      then some (errorf "token endpoint must use https, got scheme %q" (text u.scheme ∷ []))
      else if allow_non_salesforce
      then none
      else if is_loopback_host host
      then some (
          errorf
            "token endpoint host %q is loopback; set allow_non_salesforce_host=true to permit a non-Salesforce host"
            (text host ∷ []))
      else if has_any_suffix host salesforce_host_suffixes
      then none
      else some (
          errorf
            "token endpoint host %q is not an allowed Salesforce domain (allowed suffixes: %s); set allow_non_salesforce_host=true to override"
            (text host ∷ text ".salesforce.com, .force.com, .salesforce.mil" ∷ []))

  -- `nil` is `none`.
  unfoldable pub validate_token_host : String → Bool → Option Error
  unfolding check_url
  validate_token_host raw_url allow_non_salesforce = elim (V.url_parse raw_url) [
    | fail e ↦ some (wrapped "invalid token endpoint URL: %w" [] e)
    | ok u ↦ check_url raw_url allow_non_salesforce u
  ]

  unfoldable pub host_of : String → String
  host_of raw_url = elim (V.url_parse raw_url) [ fail e ↦ "" | ok u ↦ V.to_lower u.hostname ]
