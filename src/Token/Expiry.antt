-- ===== src/Token/Expiry.antt =====
-- The lifetime of a minted token (path_creds.go `computeExpiry`) against the renew skew of its
-- role (cache.go `fresh`), as path_roles.go `validateRole` relates them.
use vault_plugin_secrets_sal.Common.{◌≡◌, true, false, none, arith}
use vault_plugin_secrets_sal.Common.Int.{
  ℤ, pos, ◌+ℤ◌, ◌≤ℤ◌, ◌<ℤ◌, neg, wrap_int64, wrap_int64_of_InRange, InRange, +ℤ_parts, neg_parts,
  ltb_ℤ,
}
use vault_plugin_secrets_sal.Role.{Role, Duration}
use vault_plugin_secrets_sal.Role.Handlers.{role_refusal}
use vault_plugin_secrets_sal.Token.{
  Time, TokenResult, CachedToken, before, fresh, compute_expiry, default_token_ttl,
}
use vault_plugin_secrets_sal.Creds.{cached_token_of}

-- The lifetime that is taken where the endpoint gives none.
compute_expiry-configured :
    (now : Time) (role : Role) (res : TokenResult)
    → res.expires_in ≤ℤ pos 0
    → pos 0 <ℤ role.token_ttl
    → compute_expiry now role res ≡ now +ℤ role.token_ttl
unfolding compute_expiry
compute_expiry-configured now role res omitted positive = ground arith

compute_expiry-default :
    (now : Time) (role : Role) (res : TokenResult)
    → res.expires_in ≤ℤ pos 0
    → role.token_ttl ≤ℤ pos 0
    → compute_expiry now role res ≡ now +ℤ default_token_ttl
unfolding compute_expiry
compute_expiry-default now role res omitted nonpositive = ground arith

-- Negating a duration that is not negative does not wrap.
wrap_neg : (d : ℤ) → pos 0 ≤ℤ d → InRange d → wrap_int64 (neg d) ≡ neg d
unfolding neg
wrap_neg d nonneg (below, above) = wrap_int64_of_InRange (neg d) (ground arith, ground arith)

-- A token is fresh while its renew skew has not begun.
fresh-before_skew :
    (now minted : Time) (ttl skew : Duration)
    → pos 0 ≤ℤ skew
    → InRange skew
    → now +ℤ skew <ℤ minted +ℤ ttl
    → ltb_ℤ now ((minted +ℤ ttl) +ℤ wrap_int64 (neg skew)) ≡ true
fresh-before_skew now minted ttl skew nonneg range h = rw (wrap_neg skew nonneg range) (
    let a = neg_parts skew in
    let b = +ℤ_parts (minted +ℤ ttl) (neg skew) in let c = +ℤ_parts now skew in ground arith)

-- What the checks say of the skew.
pub role_refusal-skew :
    (role : Role)
    → role_refusal role ≡ none
    → (pos 0 ≤ℤ role.renew_skew) × (pos 0 <ℤ role.token_ttl → role.renew_skew <ℤ role.token_ttl)
unfolding role_refusal
role_refusal-skew role h = ground arith

-- A token that is minted for a role that passes the checks, with a positive token_ttl, a renew skew
-- in the range of an int64 and no positive expires_in in the answer, is fresh when it is minted.
pub minted-fresh :
    (now : Time) (role : Role) (res : TokenResult)
    → role_refusal role ≡ none
    → pos 0 <ℤ role.token_ttl
    → InRange role.renew_skew
    → res.expires_in ≤ℤ pos 0
    → fresh (cached_token_of now role res) now role.renew_skew ≡ true
unfolding fresh cached_token_of
minted-fresh now role res accepted positive range omitted =
    let (nonneg, less) = role_refusal-skew role accepted in
    let a = +ℤ_parts now role.token_ttl in
    let b = +ℤ_parts now role.renew_skew in
    let l = less positive in
    rw (compute_expiry-configured now role res omitted positive)
      (fresh-before_skew now now role.token_ttl role.renew_skew nonneg range (omega arith))

-- Where token_ttl is not positive, the renew skew is in the range of an int64 and reaches the
-- default lifetime of 15 minutes, and the answer has no positive expires_in, a minted token is at no
-- later time fresh.
pub minted-never_fresh :
    (now later : Time) (role : Role) (res : TokenResult)
    → role.token_ttl ≤ℤ pos 0
    → default_token_ttl ≤ℤ role.renew_skew
    → InRange role.renew_skew
    → res.expires_in ≤ℤ pos 0
    → now ≤ℤ later
    → fresh (cached_token_of now role res) later role.renew_skew ≡ false
unfolding fresh cached_token_of
minted-never_fresh now later role res nonpositive long range omitted passed =
    let a = +ℤ_parts now default_token_ttl in
    let b = neg_parts role.renew_skew in
    let c = +ℤ_parts (now +ℤ default_token_ttl) (neg role.renew_skew) in
    rw
      (
        compute_expiry-default now role res omitted nonpositive,
        wrap_neg role.renew_skew (omega arith) range,
      )
      (ground arith)

-- A fresh token has not expired, where the renew skew is that of a role that passes the checks.
pub fresh-before :
    (ct : CachedToken) (t : Time) (role : Role)
    → role_refusal role ≡ none
    → InRange role.renew_skew
    → fresh ct t role.renew_skew ≡ true
    → before t ct.expires_at ≡ true
unfolding fresh
fresh-before ct t role checked range h =
    let nonneg = (role_refusal-skew role checked).0 in
    let e = wrap_neg role.renew_skew nonneg range in
    let a = neg_parts role.renew_skew in
    let b = +ℤ_parts ct.expires_at (neg role.renew_skew) in let inside = rw e at h in ground arith
