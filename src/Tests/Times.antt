-- ===== src/Tests/Times.antt =====
-- The lifetime of minted tokens, at concrete roles.
use vault_plugin_secrets_sal.Common.{◌≡◌, refl, true, false, none, arith}
use vault_plugin_secrets_sal.Common.Int.{pos}
use vault_plugin_secrets_sal.Role.{Role}
use vault_plugin_secrets_sal.Role.Handlers.{role_refusal}
use vault_plugin_secrets_sal.Token.{TokenResult, fresh}
use vault_plugin_secrets_sal.Token.Expiry.{minted-fresh, minted-never_fresh}
use vault_plugin_secrets_sal.Creds.{cached_token_of}
use vault_plugin_secrets_sal.Tests.Data.{app}

abbrev answer : TokenResult
answer = record {
  access_token = "00Dxx!first";
  instance_url = "https://acme.my.salesforce.com";
  token_type = "Bearer";
  scope = "api";
  expires_in = pos 0;
}

-- A role with token_ttl zero and a renew skew of 20 minutes.
abbrev skewed : Role
skewed = record app { token_ttl = pos 0; renew_skew = pos 1_200_000_000_000 }

app_passes : role_refusal app ≡ none
unfolding role_refusal
app_passes = refl

skewed_passes : role_refusal skewed ≡ none
unfolding role_refusal
skewed_passes = refl

minted-fresh_example : fresh (cached_token_of (pos 5) app answer) (pos 5) app.renew_skew ≡ true
minted-fresh_example =
    minted-fresh (pos 5) app answer app_passes (omega arith) (omega arith, omega arith)
      (omega arith)

minted-never_fresh_example :
    fresh (cached_token_of (pos 5) skewed answer) (pos 6) skewed.renew_skew ≡ false
minted-never_fresh_example =
    minted-never_fresh (pos 5) (pos 6) skewed answer (omega arith) (omega arith)
      (omega arith, omega arith) (omega arith) (omega arith)
