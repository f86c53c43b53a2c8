-- ===== src/HostCheck/Allowed.antt =====
-- Which token endpoints `validateTokenHost` lets through, without its order of tests.
use vault_plugin_secrets_sal.Common.{
  String, ◌<>◌, ◌≡◌, ◌≢◌, refl, ◌⊎◌, inl, inr, Bool, true, false, none, arith, eq_iff, Option-cases,
  Bool-cases,
}
use vault_plugin_secrets_sal.Common.Text.{
  has_suffix, strip_suffix, strip_suffix-append, strip_suffix_of_append,
}
use vault_plugin_secrets_sal.Errors.{ok, Outcome-cases}
use vault_plugin_secrets_sal.Platform.{Platform, Url}
use vault_plugin_secrets_sal.HostCheck.{
  has_any_suffix, salesforce_host_suffixes, is_loopback_host, check_url, validate_token_host,
}

-- A host below one of the domains of Salesforce.
pub IsSalesforceHost : String → Type 0
IsSalesforceHost host =
    (p : String) × ((host ≡ p <> ".salesforce.com")
      ⊎ (host ≡ p <> ".force.com")
      ⊎ (host ≡ p <> ".salesforce.mil"))

has_suffix-append :
    (s suffix : String) → has_suffix s suffix ≡ true → (p : String) × (s ≡ p <> suffix)
unfolding has_suffix
has_suffix-append s suffix h = elim (Option-cases (strip_suffix suffix s)) [
  | inl n ↦ cc (h, n)
  | inr (p, e) ↦ (p, strip_suffix-append suffix s e)
]

has_suffix_of_append : (p suffix : String) → has_suffix (p <> suffix) suffix ≡ true
unfolding has_suffix
has_suffix_of_append p suffix = rw (has_suffix, strip_suffix_of_append suffix p) refl

has_any_suffix→IsSalesforceHost :
    (host : String) → has_any_suffix host salesforce_host_suffixes ≡ true → IsSalesforceHost host
unfolding has_any_suffix IsSalesforceHost
has_any_suffix→IsSalesforceHost host h = elim (Bool-cases (has_suffix host ".salesforce.com")) [
  | inl e ↦ let (p, q) = has_suffix-append host ".salesforce.com" e in (p, inl q)
  | inr n ↦ elim (Bool-cases (has_suffix host ".force.com")) [
    | inl e ↦ let (p, q) = has_suffix-append host ".force.com" e in (p, inr (inl q))
    | inr m ↦
        let (p, q) = has_suffix-append host ".salesforce.mil" (ground arith) in (p, inr (inr q))
  ]
]

IsSalesforceHost→has_any_suffix :
    (host : String) → IsSalesforceHost host → has_any_suffix host salesforce_host_suffixes ≡ true
unfolding has_any_suffix IsSalesforceHost
IsSalesforceHost→has_any_suffix host (p, inl e) =
    let h = has_suffix_of_append p ".salesforce.com" in ground arith
IsSalesforceHost→has_any_suffix host (p, inr (inl e)) =
    let h = has_suffix_of_append p ".force.com" in ground arith
IsSalesforceHost→has_any_suffix host (p, inr (inr e)) =
    let h = has_suffix_of_append p ".salesforce.mil" in ground arith

module _ (V : Platform) where
  -- What the check asks of a parsed URL.
  pub record IsAllowed (allow_non_salesforce : Bool) (u : Url) : Type 0 where
    pub has_host : V.to_lower u.hostname ≢ ""
    pub is_secure : (u.scheme ≡ "https") ⊎ (is_loopback_host V (V.to_lower u.hostname) ≡ true)
    pub is_destination :
        (allow_non_salesforce ≡ true)
        ⊎ ((is_loopback_host V (V.to_lower u.hostname) ≡ false)
            × IsSalesforceHost (V.to_lower u.hostname))

  check_url→IsAllowed :
      (url : String) (allow : Bool) (u : Url) → check_url V url allow u ≡ none → IsAllowed allow u
  unfolding check_url
  check_url→IsAllowed url allow u h = record {
    has_host = ground (arith, eq_iff (V.to_lower u.hostname) "");
    is_secure = ground (arith, eq_iff (V.to_lower u.hostname) "", eq_iff u.scheme "https");
    is_destination = ground (arith, has_any_suffix→IsSalesforceHost (V.to_lower u.hostname));
  }

  IsAllowed→check_url :
      (url : String) (allow : Bool) (u : Url) → IsAllowed allow u → check_url V url allow u ≡ none
  unfolding check_url
  IsAllowed→check_url url allow u a =
      let h = a.has_host in
      let s = a.is_secure in
      let d = a.is_destination in
      ground (
        arith,
        eq_iff (V.to_lower u.hostname) "",
        eq_iff u.scheme "https",
        IsSalesforceHost→has_any_suffix (V.to_lower u.hostname),
      )

  -- A URL passes the check exactly if it parses to one with a host, over https or to a loopback
  -- address, and either other hosts are allowed, or the host is not a loopback address and is below
  -- one of the domains of Salesforce.
  pub validate_token_host_iff :
      (url : String) (allow : Bool)
      → (validate_token_host V url allow ≡ none
          → (u : Url) × (V.url_parse url ≡ ok u) × IsAllowed allow u)
        × ((u : Url)
            → V.url_parse url ≡ ok u
            → IsAllowed allow u
            → validate_token_host V url allow ≡ none)
  unfolding validate_token_host
  validate_token_host_iff url allow = (
    λ h. elim (Outcome-cases (V.url_parse url)) [
      | inl (u, e) ↦ (u, e, check_url→IsAllowed url allow u (rw (validate_token_host, e) at h))
      | inr (e, f) ↦ cc (rw (validate_token_host, f) at h)
    ],
    λ u e a. rw (validate_token_host, e) (IsAllowed→check_url url allow u a),
  )
