-- ===== src/Jwt/Lifetime.antt =====
-- The lifetime of the assertion that jwt.go `buildJWTAssertion` signs.
use vault_plugin_secrets_sal.Common.{◌≡◌, none, arith, if◌then◌else◌}
use vault_plugin_secrets_sal.Common.Int.{ℤ, pos, negsuc, ◌+ℤ◌, ◌≤ℤ◌, leb_ℤ}
use vault_plugin_secrets_sal.Config.{Config}
use vault_plugin_secrets_sal.Role.{Role}
use vault_plugin_secrets_sal.Role.Handlers.{role_refusal}
use vault_plugin_secrets_sal.Token.{Time, unix}
use vault_plugin_secrets_sal.Jwt.{claims_of, default_jwt_expiry}

-- Adding at most 300 seconds adds between 0 and 300 whole seconds.
unix-within :
    (t d : ℤ)
    → pos 0 ≤ℤ d
    → d ≤ℤ pos 300_000_000_000
    → (unix t ≤ℤ unix (t +ℤ d)) × (unix (t +ℤ d) ≤ℤ unix t +ℤ pos 300)
unfolding unix ◌+ℤ◌
unix-within (pos n) d h k = (ground arith, ground arith)
unix-within (negsuc n) d h k = (ground arith, ground arith)

expiry-bounds :
    (role : Role)
    → role_refusal role ≡ none
    → (pos 0 ≤ℤ (if leb_ℤ role.jwt_expiry (pos 0) then default_jwt_expiry else role.jwt_expiry))
      × ((if leb_ℤ role.jwt_expiry (pos 0) then default_jwt_expiry else role.jwt_expiry)
          ≤ℤ pos 300_000_000_000)
unfolding role_refusal
expiry-bounds role h = (ground arith, ground arith)

-- The assertion of a role that passes the checks expires at most 300 seconds after the time it is
-- built at, and never before that time, both in whole seconds.
pub claims_of-exp :
    (cfg : Config) (role : Role) (now : Time)
    → role_refusal role ≡ none
    → (unix now ≤ℤ (claims_of cfg role now).exp)
      × ((claims_of cfg role now).exp ≤ℤ unix now +ℤ pos 300)
unfolding claims_of
claims_of-exp cfg role now accepted =
    let (low, high) = expiry-bounds role accepted in unix-within now _ low high
