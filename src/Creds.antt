-- ===== src/Creds.antt =====
-- path_creds.go: reading creds/<name> and token/<name>, and the minting of tokens.
pub mod Frames
pub mod Held
pub mod Minting
pub mod Transient
pub mod Moves
pub mod Reads
pub mod Afresh
pub mod Targets
use vault_plugin_secrets_sal.Common.{
  String, Bool, true, false, not, Option, none, some, [], ◌∷◌, ◌==◌, on_nil, if◌then◌else◌,
}
use vault_plugin_secrets_sal.Errors.{
  Error, errorf, text, Outcome, ok, fail, Reply, error_response, respond,
}
use vault_plugin_secrets_sal.Config.{Config}
use vault_plugin_secrets_sal.Role.{Role, Duration, grant_jwt_bearer, grant_client_credential}
use vault_plugin_secrets_sal.Token.{Time, TokenResult, CachedToken, before, fresh, compute_expiry}
use vault_plugin_secrets_sal.Platform.{Platform, mint_failed_serving_cached, minted}
use vault_plugin_secrets_sal.Action.{Action, pure, raise, lift, call, attempt, ◌>>=◌, ◌>>◌}
use vault_plugin_secrets_sal.Storage.{
  get_config, get_role, get_cached_token, put_cached_token, delete_cached_token,
}
use vault_plugin_secrets_sal.Client.{
  request_client_credentials_token, request_jwt_bearer_token, is_transient_mint_error,
}

-- The secret that a read returns: its data, the role in its internal data, and its lease times.
pub record IssuedSecret : Type 0 where
  pub access_token : String
  pub instance_url : String
  pub token_type : String
  pub expires_at : Time
  pub grant_type : String
  pub cached : Bool
  pub role : String
  pub ttl : Duration
  pub max_ttl : Duration

unfoldable pub cached_token_of : Time → Role → TokenResult → CachedToken
unfolding compute_expiry
cached_token_of now role res = record {
  access_token = res.access_token;
  instance_url = res.instance_url;
  token_type = res.token_type;
  scope = res.scope;
  issued_at = now;
  expires_at = compute_expiry now role res;
}

module _ (V : Platform) where
  unfoldable pub mint_token : Config → Role → Action V TokenResult
  mint_token cfg role =
      if role.grant_type == grant_client_credential
      then request_client_credentials_token V cfg
      else if role.grant_type == grant_jwt_bearer
      then request_jwt_bearer_token V cfg role
      else raise (errorf "unsupported grant_type %q" (text role.grant_type ∷ []))

  unfoldable pub mint_and_cache : String → Config → Role → Action V CachedToken
  mint_and_cache role_name cfg role = do
    now ← call V V.now
    res ← mint_token cfg role
    let ct = cached_token_of now role res
    put_cached_token V role_name ct
    call V (V.log (minted role_name role.grant_type ct.expires_at))
    pure ct

  -- The cached token, if there is one that is still fresh.
  unfoldable pub fresh_or_none : Role → Option CachedToken → Action V (Option CachedToken)
  fresh_or_none role none = pure none
  fresh_or_none role (some ct) = do
    now ← call V V.now
    pure (if fresh ct now role.renew_skew then some ct else none)

  unfoldable pub fresh_cached : String → Role → Action V (Option CachedToken)
  unfolding fresh_or_none
  fresh_cached role_name role = do ct ← get_cached_token V role_name; fresh_or_none role ct

  -- The cached token, if it can be read and has not expired.
  unfoldable pub unexpired_or_none : Outcome (Option CachedToken) → Action V (Option CachedToken)
  unexpired_or_none (fail e) = pure none
  unexpired_or_none (ok none) = pure none
  unexpired_or_none (ok (some ct)) = do
    now ← call V V.now
    pure (if before now ct.expires_at then some ct else none)

  unfoldable pub unexpired_cached : String → Action V (Option CachedToken)
  unfolding unexpired_or_none
  unexpired_cached role_name = do ct ← attempt (get_cached_token V role_name); unexpired_or_none ct

  -- A definitive failure purges the cached token, and fails.
  unfoldable pub fail_closed : String → Error → Action V (CachedToken × Bool)
  fail_closed role_name e =
      if not (is_transient_mint_error e)
      then (do delete_cached_token V role_name; raise e)
      else raise e

  unfoldable pub serve_or_fail : String → Error → Option CachedToken → Action V (CachedToken × Bool)
  unfolding fail_closed
  serve_or_fail role_name e none = fail_closed role_name e
  serve_or_fail role_name e (some existing) =
      if is_transient_mint_error e
      then (do
        call V (V.log (mint_failed_serving_cached role_name e existing.expires_at))
        pure (existing, true))
      else fail_closed role_name e

  unfoldable pub after_mint : String → Outcome CachedToken → Action V (CachedToken × Bool)
  unfolding serve_or_fail
  after_mint role_name (ok ct) = pure (ct, false)
  after_mint role_name (fail e) = do
    existing ← unexpired_cached role_name
    serve_or_fail role_name e existing

  -- What is done under the mint lock.
  unfoldable pub issue_locked : String → Config → Role → Action V (CachedToken × Bool)
  issue_locked role_name cfg role = do
    hit ← fresh_cached role_name role
    on_nil hit
        (do result ← attempt (mint_and_cache role_name cfg role); after_mint role_name result)
        (λ ct. pure (ct, true))

  -- `defer lock.Unlock()`
  unfoldable pub then_unlock : {A : Type 0} → String → Action V A → Action V A
  then_unlock role_name m = do result ← attempt m; call V (V.unlock role_name); lift result

  -- Without the lock, a token that has not expired is served; else the lock is waited for.
  unfoldable pub issue_contended : String → Config → Role → Action V (CachedToken × Bool)
  issue_contended role_name cfg role = do
    usable ← unexpired_cached role_name
    on_nil usable
        (do call V (V.lock role_name); then_unlock role_name (issue_locked role_name cfg role))
        (λ ct. pure (ct, true))

  unfoldable pub issue_token : String → Config → Role → Action V (CachedToken × Bool)
  issue_token role_name cfg role = do
    hit ← fresh_cached role_name role
    on_nil hit
        (do
          locked ← call V (V.try_lock role_name)
          (if locked
              then then_unlock role_name (issue_locked role_name cfg role)
              else issue_contended role_name cfg role))
        (λ ct. pure (ct, true))

  unfoldable pub secret_response : String → Role → CachedToken × Bool → IssuedSecret
  secret_response role_name role (token, cached) = record {
    access_token = token.access_token;
    instance_url = token.instance_url;
    token_type = token.token_type;
    expires_at = token.expires_at;
    grant_type = role.grant_type;
    cached = cached;
    role = role_name;
    ttl = role.ttl;
    max_ttl = role.max_ttl;
  }

  unfoldable pub no_such_role : String → Error
  no_such_role role_name = errorf "role %q does not exist" (text role_name ∷ [])

  unfoldable pub no_such_config : String → String → Error
  no_such_config config_name role_name =
      errorf "config %q for role %q does not exist" (text config_name ∷ text role_name ∷ [])

  -- The role of the request and its configuration, or the reply that says what is missing.
  unfoldable pub with_role_config :
      {A : Type 0} → String → (Config → Role → Action V (Reply A)) → Action V (Reply A)
  unfolding no_such_role no_such_config
  with_role_config role_name handle = do
    role ← get_role V role_name
    on_nil role (pure (error_response (no_such_role role_name))) λ r. do
      cfg ← get_config V r.config
      on_nil cfg (pure (error_response (no_such_config r.config role_name))) (λ c. handle c r)

  unfoldable pub path_creds_read : String → Action V (Reply IssuedSecret)
  path_creds_read role_name = with_role_config role_name λ cfg role. do
    issued ← issue_token role_name cfg role
    pure (respond (secret_response role_name role issued))
