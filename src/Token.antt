-- ===== src/Token.antt =====
-- client.go `tokenResult`, cache.go `cachedToken`, and the expiry of a token (path_creds.go).
pub mod Expiry
use vault_plugin_secrets_sal.Common.{◌/◌, String, Bool, if◌then◌else◌}
use vault_plugin_secrets_sal.Common.Int.{ℤ, pos, negsuc, neg, ◌+ℤ◌, wrap_int64, ltb_ℤ, leb_ℤ}
use vault_plugin_secrets_sal.Role.{Role, Duration, of_seconds}

-- An instant, in nanoseconds from the Unix epoch.
abbrev pub Time : Type 0
Time = ℤ

-- `t.Unix()`, which rounds down.
unfoldable pub unix : Time → ℤ
unix (pos n) = pos (n / 1_000_000_000)
unix (negsuc n) = negsuc (n / 1_000_000_000)

pub record TokenResult : Type 0 where
  pub access_token : String
  pub instance_url : String
  pub token_type : String
  pub scope : String
  pub expires_in : ℤ

pub record CachedToken : Type 0 where
  pub access_token : String
  pub instance_url : String
  pub token_type : String
  pub scope : String
  pub issued_at : Time
  pub expires_at : Time

abbrev pub cache_storage_prefix : String
cache_storage_prefix = "cache/"

-- `t.Before(u)`
abbrev pub before : Time → Time → Bool
before = ltb_ℤ

-- `now.Before(c.ExpiresAt.Add(-skew))`; the negation is one of `int64`.
unfoldable pub fresh : CachedToken → Time → Duration → Bool
fresh c now skew = before now (c.expires_at +ℤ wrap_int64 (neg skew))

-- 15 * time.Minute
abbrev pub default_token_ttl : Duration
default_token_ttl = pos 900_000_000_000

unfoldable pub compute_expiry : Time → Role → TokenResult → Time
compute_expiry now role res =
    if ltb_ℤ (pos 0) res.expires_in
    then now +ℤ of_seconds res.expires_in
    else now +ℤ (if leb_ℤ role.token_ttl (pos 0) then default_token_ttl else role.token_ttl)
