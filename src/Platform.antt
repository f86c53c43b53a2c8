-- ===== src/Platform.antt =====
-- What the engine calls and does not implement: Vault's storage, locks and logger, the network,
-- the clock, and the parts of Go's libraries that are taken as they are documented.
pub mod Exchanges
pub mod Laws
pub mod Memory
use vault_plugin_secrets_sal.Common.{ℕ, String, Bool, Option, List}
use vault_plugin_secrets_sal.Common.Int.{ℤ}
use vault_plugin_secrets_sal.Errors.{Error, Outcome}
use vault_plugin_secrets_sal.Config.{Config}
use vault_plugin_secrets_sal.Role.{Role, Duration}
use vault_plugin_secrets_sal.Token.{Time, TokenResult, CachedToken}

-- `StorageEntryJSON` and `DecodeJSON` at one record type.
pub record Codec (Entry A : Type 0) : Type 0 where
  pub encode : A → Outcome Entry
  pub decode : Entry → Outcome A

-- The parts of a parsed `url.URL` that the engine reads.
pub record Url : Type 0 where
  pub scheme : String
  pub hostname : String

-- An HTTP client: the TLS settings that `httpClientFor` puts into it. It has no CheckRedirect, so
-- `client.Do` follows redirects.
pub record HttpClient : Type 0 where
  pub insecure_skip_verify : Bool
  pub root_cas : Option String

-- A POST of a form, or a request that a redirect makes of one, with no form where that is a GET.
pub record HttpRequest : Type 0 where
  pub url : String
  pub form : List (String × String)

-- `client.Do`, and the read of the body.
pub data HttpResult : Type 0 where
  not_sent : Error → HttpResult
  unreadable : ℕ → Error → HttpResult
  received : ℕ → String → HttpResult

-- The claims of the JWT assertion.
pub record Claims : Type 0 where
  pub iss : String
  pub sub : String
  pub aud : String
  pub exp : ℤ

-- The log lines that the engine writes.
pub data LogLine : Type 0 where
  host_changed : String → String → String → LogLine
  enables_tls_skip_verify : String → LogLine
  allows_non_salesforce_host : String → LogLine
  mint_failed_serving_cached : String → Error → Time → LogLine
  minted : String → String → Time → LogLine
  rotated : String → Time → LogLine
  revoke_failed : String → Error → LogLine
  revoked : String → LogLine
  lease_revoked : String → LogLine

pub record Platform : Type 1 where
  -- Everything outside the engine, the content of a storage entry, and an RSA key.
  pub World : Type 0
  pub Entry : Type 0
  pub Key : Type 0
  -- logical.Storage
  pub storage_get : String → World → Outcome (Option Entry) × World
  pub storage_put : String → Entry → World → Outcome (Unit {0}) × World
  pub storage_delete : String → World → Outcome (Unit {0}) × World
  pub storage_list : String → World → Outcome (List String) × World
  -- JSON entries
  pub config_json : Codec Entry Config
  pub role_json : Codec Entry Role
  pub token_json : Codec Entry CachedToken
  -- locksutil: the lock of a key
  pub try_lock : String → World → Bool × World
  pub lock : String → World → Unit {0} × World
  pub unlock : String → World → Unit {0} × World
  -- time.Now, rand.Int63n, and the wait that the context may end
  pub now : World → Time × World
  pub rand_int63n : ℤ → World → ℤ × World
  pub wait : Duration → World → Option Error × World
  pub context_error : World → Option Error × World
  -- the network and the logger
  -- `client.Do` of a POST, with the redirects that it follows: the answer is the last one.
  pub post : HttpClient → HttpRequest → World → HttpResult × World
  pub log : LogLine → World → Unit {0} × World
  -- net/url, net, net/http, crypto/x509, strings, encoding/json, jwt
  pub url_parse : String → Outcome Url
  pub to_lower : String → String
  pub trim_space : String → String
  pub parse_ip : String → Option Bool
  pub new_request : String → Outcome (Unit {0})
  pub append_certs : String → Bool
  pub unmarshal_token : String → Outcome TokenResult
  pub unmarshal_error : String → Outcome (String × String)
  pub parse_rsa_key : String → Outcome Key
  pub sign_rs256 : Claims → Key → Outcome String
