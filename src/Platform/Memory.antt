-- ===== src/Platform/Memory.antt =====
-- A platform in memory: a storage as an association list, a clock that counts calls, and a network
-- that gives prepared answers. The tests run the engine on it.
pub mod Lawful
use Prim.Native.Char.{code}
use text.Mathlib.TextLemmas.{cons-append, nil-append}
use vault_plugin_secrets_sal.Common.{
  ℕ, suc, ◌*◌, String, ◌<>◌, ◌≡◌, ◌≢◌, refl, sym, ◌⊎◌, inl, inr, true, Option, none, some, List, [],
  ◌∷◌, arith, ◌==◌, eq_iff, eq_refl, num_eq, if◌then◌else◌, text-cases,
}
use vault_plugin_secrets_sal.Common.Text.{strip_prefix}
use vault_plugin_secrets_sal.Common.Int.{pos}
use vault_plugin_secrets_sal.Errors.{external, Outcome, ok, fail}
use vault_plugin_secrets_sal.Config.{Config}
use vault_plugin_secrets_sal.Role.{Duration, Role}
use vault_plugin_secrets_sal.Token.{TokenResult, CachedToken}
use vault_plugin_secrets_sal.Platform.{Platform, Url, HttpRequest, HttpResult, not_sent, LogLine}
use vault_plugin_secrets_sal.Platform.Laws.{IsLawful, contains}

pub data MemoryEntry : Type 0 where
  config_entry : Config → MemoryEntry
  role_entry : Role → MemoryEntry
  token_entry : CachedToken → MemoryEntry

pub record Memory : Type 0 where
  pub entries : List (String × MemoryEntry)
  pub clock : ℕ
  pub answers : List HttpResult
  pub sent : List HttpRequest
  pub lines : List LogLine
  pub waits : List Duration

unfoldable pub lookup : String → List (String × MemoryEntry) → Option MemoryEntry
lookup k [] = none
lookup k ((j, e) ∷ m) = if j == k then some e else lookup k m

unfoldable pub without : String → List (String × MemoryEntry) → List (String × MemoryEntry)
without k [] = []
without k ((j, e) ∷ m) = let rest = without k m in if j == k then rest else (j, e) ∷ rest

abbrev cons_if : Option String → List String → List String
cons_if none names = names
cons_if (some name) names = name ∷ names

unfoldable pub names_below : String → List (String × MemoryEntry) → List String
unfolding strip_prefix
names_below p [] = []
names_below p ((j, e) ∷ m) = cons_if (strip_prefix p j) (names_below p m)

-- The next prepared answer, or none to be had.
answer : List HttpResult → HttpResult
answer [] = not_sent (external "connection refused")
answer (r ∷ rest) = r

rest_of : List HttpResult → List HttpResult
rest_of [] = []
rest_of (r ∷ rest) = rest

-- Two hosts of Salesforce, one that is not, and a loopback address.
known_url : String → Outcome Url
known_url url =
    if url == "https://login.salesforce.com/services/oauth2/token"
    then ok (record { scheme = "https"; hostname = "login.salesforce.com" })
    else if url == "https://acme.my.salesforce.com/oauth"
    then ok (record { scheme = "https"; hostname = "acme.my.salesforce.com" })
    else if url == "https://gateway.example/services/oauth2/token"
    then ok (record { scheme = "https"; hostname = "gateway.example" })
    else if url == "http://127.0.0.1/token"
    then ok (record { scheme = "http"; hostname = "127.0.0.1" })
    else fail (external "not a URL")

-- The body of a good answer is the token itself.
read_token : String → Outcome TokenResult
read_token body =
    if body == ""
    then fail (external "unexpected end of JSON input")
    else ok (record {
      access_token = body;
      instance_url = "https://acme.my.salesforce.com";
      token_type = "Bearer";
      scope = "api";
      expires_in = pos 0;
    })

abbrev pub as_config : MemoryEntry → Outcome Config
as_config (config_entry c) = ok c
as_config (role_entry r) = fail (external "not a config")
as_config (token_entry t) = fail (external "not a config")

abbrev pub as_role : MemoryEntry → Outcome Role
as_role (config_entry c) = fail (external "not a role")
as_role (role_entry r) = ok r
as_role (token_entry t) = fail (external "not a role")

abbrev pub as_token : MemoryEntry → Outcome CachedToken
as_token (config_entry c) = fail (external "not a token")
as_token (role_entry r) = fail (external "not a token")
as_token (token_entry t) = ok t

-- Each reading of the clock is a second later than the one before.
unfoldable pub memory : Platform
unfolding lookup without names_below answer rest_of known_url read_token
memory = record {
  World = Memory;
  Entry = MemoryEntry;
  Key = String;
  storage_get = λ k m. (ok (lookup k m.entries), m);
  storage_put = λ k e m. (ok tt, record m { entries = (k, e) ∷ m.entries });
  storage_delete = λ k m. (ok tt, record m { entries = without k m.entries });
  storage_list = λ p m. (ok (names_below p m.entries), m);
  config_json = record { encode = λ c. ok (config_entry c); decode = as_config };
  role_json = record { encode = λ r. ok (role_entry r); decode = as_role };
  token_json = record { encode = λ t. ok (token_entry t); decode = as_token };
  try_lock = λ k m. (true, m);
  lock = λ k m. (tt, m);
  unlock = λ k m. (tt, m);
  now = λ m. (pos (m.clock * 1_000_000_000), record m { clock = suc m.clock });
  rand_int63n = λ n m. (pos 0, m);
  wait = λ d m. (none, record m { waits = d ∷ m.waits });
  context_error = λ m. (none, m);
  post = λ c r m. (answer m.answers, record m { answers = rest_of m.answers; sent = r ∷ m.sent });
  log = λ l m. (tt, record m { lines = l ∷ m.lines });
  url_parse = known_url;
  to_lower = λ s. s;
  trim_space = λ s. s;
  parse_ip = λ s. if s == "127.0.0.1" then some true else none;
  new_request = λ s. ok tt;
  append_certs = λ s. true;
  unmarshal_token = read_token;
  unmarshal_error = λ s. ok (s, "");
  parse_rsa_key = λ s. ok s;
  sign_rs256 = λ c k. ok "assertion";
}
