-- ===== src/Creds/Moves.antt =====
-- path_creds.go `issueToken` cut at its calls: where a request for a token stands, what each call
-- on something shared answers, and where the request goes on. Several requests interleave so.
pub mod Simulation
pub mod Lookups
pub mod Minting
pub mod Sequential
pub mod Resume
use vault_plugin_secrets_sal.Common.{
  String, Bool, true, false, Option, none, some, ◌≡◌, if◌then◌else◌,
}
use vault_plugin_secrets_sal.Errors.{Error, Outcome, ok, fail}
use vault_plugin_secrets_sal.Role.{Role}
use vault_plugin_secrets_sal.Token.{Time, TokenResult, CachedToken, before, fresh}
use vault_plugin_secrets_sal.Platform.{LogLine, mint_failed_serving_cached}
use vault_plugin_secrets_sal.Client.{is_transient_mint_error}
use vault_plugin_secrets_sal.Creds.{cached_token_of}

-- What `issueToken` returns.
abbrev pub Issued : Type 0
Issued = Outcome (CachedToken × Bool)

-- The call that a request makes next, with what it needs of the answers before.
pub data Pc : Type 0 where
  start : Pc  -- getCachedToken on the fast path
  fast_check : CachedToken → Pc  -- time.Now for `fresh` there
  at_lock : Pc  -- lock.TryLock
  contended : Pc  -- getCachedToken without the lock
  contended_check : CachedToken → Pc  -- time.Now for its expiry
  waiting : Pc  -- lock.Lock
  recheck : Pc  -- getCachedToken under the lock
  recheck_check : CachedToken → Pc  -- time.Now for `fresh` there
  at_mint : Pc  -- time.Now of mintAndCache
  minting : Time → Pc  -- mintToken
  storing : CachedToken → Pc  -- putCachedToken
  stored : CachedToken → Pc  -- the log line of mintAndCache
  mint_failed : Error → Pc  -- getCachedToken after a failure
  failed_check : Error → CachedToken → Pc  -- time.Now for its expiry
  degraded : Error → CachedToken → Pc  -- the log line of a token that is still served
  purging : Error → Pc  -- deleteCachedToken
  unlocking : Issued → Pc  -- the deferred lock.Unlock
  done : Issued → Pc

-- A call with its answer.
pub data Event : Type 0 where
  loaded : Outcome (Option CachedToken) → Event
  read_clock : Time → Event
  tried_lock : Bool → Event
  took_lock : Event
  requested : Outcome TokenResult → Event
  put_token : CachedToken → Outcome (Unit {0}) → Event
  logged : LogLine → Event
  deleted : Outcome (Unit {0}) → Event
  released : Event

-- Where a failure to mint goes when no cached token can stand in.
abbrev pub after_failure : Error → Pc
after_failure e = if is_transient_mint_error e then unlocking (fail e) else purging e

module _ (name : String) (role : Role) where
  pub data Move : Pc → Event → Pc → Type 0 where
    fast_error : {e : Error} → Move start (loaded (fail e)) (done (fail e))
    fast_miss : Move start (loaded (ok none)) at_lock
    fast_hit : {ct : CachedToken} → Move start (loaded (ok (some ct))) (fast_check ct)
    fast_fresh :
        {ct : CachedToken} {t : Time}
        → fresh ct t role.renew_skew ≡ true
        → Move (fast_check ct) (read_clock t) (done (ok (ct, true)))
    fast_stale :
        {ct : CachedToken} {t : Time}
        → fresh ct t role.renew_skew ≡ false
        → Move (fast_check ct) (read_clock t) at_lock
    lock_free : Move at_lock (tried_lock true) recheck
    lock_taken : Move at_lock (tried_lock false) contended
    contended_error : {e : Error} → Move contended (loaded (fail e)) waiting
    contended_miss : Move contended (loaded (ok none)) waiting
    contended_hit : {ct : CachedToken} → Move contended (loaded (ok (some ct))) (contended_check ct)
    contended_valid :
        {ct : CachedToken} {t : Time}
        → before t ct.expires_at ≡ true
        → Move (contended_check ct) (read_clock t) (done (ok (ct, true)))
    contended_expired :
        {ct : CachedToken} {t : Time}
        → before t ct.expires_at ≡ false
        → Move (contended_check ct) (read_clock t) waiting
    waited : Move waiting took_lock recheck
    recheck_error : {e : Error} → Move recheck (loaded (fail e)) (unlocking (fail e))
    recheck_miss : Move recheck (loaded (ok none)) at_mint
    recheck_hit : {ct : CachedToken} → Move recheck (loaded (ok (some ct))) (recheck_check ct)
    recheck_fresh :
        {ct : CachedToken} {t : Time}
        → fresh ct t role.renew_skew ≡ true
        → Move (recheck_check ct) (read_clock t) (unlocking (ok (ct, true)))
    recheck_stale :
        {ct : CachedToken} {t : Time}
        → fresh ct t role.renew_skew ≡ false
        → Move (recheck_check ct) (read_clock t) at_mint
    mint_begins : {t : Time} → Move at_mint (read_clock t) (minting t)
    mint_answers :
        {t : Time} {res : TokenResult}
        → Move (minting t) (requested (ok res)) (storing (cached_token_of t role res))
    mint_fails : {t : Time} {e : Error} → Move (minting t) (requested (fail e)) (mint_failed e)
    store_done : {ct : CachedToken} → Move (storing ct) (put_token ct (ok tt)) (stored ct)
    store_fails :
        {ct : CachedToken} {e : Error} → Move (storing ct) (put_token ct (fail e)) (mint_failed e)
    store_logged :
        {ct : CachedToken}
        → Move
            (stored ct)
            (logged (LogLine.minted name role.grant_type ct.expires_at))
            (unlocking (ok (ct, false)))
    failed_error : {e f : Error} → Move (mint_failed e) (loaded (fail f)) (after_failure e)
    failed_miss : {e : Error} → Move (mint_failed e) (loaded (ok none)) (after_failure e)
    failed_hit :
        {e : Error} {ct : CachedToken}
        → Move (mint_failed e) (loaded (ok (some ct))) (failed_check e ct)
    failed_valid :
        {e : Error} {ct : CachedToken} {t : Time}
        → before t ct.expires_at ≡ true
        → is_transient_mint_error e ≡ true
        → Move (failed_check e ct) (read_clock t) (degraded e ct)
    failed_for_good :
        {e : Error} {ct : CachedToken} {t : Time}
        → before t ct.expires_at ≡ true
        → is_transient_mint_error e ≡ false
        → Move (failed_check e ct) (read_clock t) (purging e)
    failed_expired :
        {e : Error} {ct : CachedToken} {t : Time}
        → before t ct.expires_at ≡ false
        → Move (failed_check e ct) (read_clock t) (after_failure e)
    degraded_logged :
        {e : Error} {ct : CachedToken}
        → Move
            (degraded e ct)
            (logged (mint_failed_serving_cached name e ct.expires_at))
            (unlocking (ok (ct, true)))
    purge_done : {e : Error} → Move (purging e) (deleted (ok tt)) (unlocking (fail e))
    purge_fails : {e f : Error} → Move (purging e) (deleted (fail f)) (unlocking (fail f))
    unlocked : {r : Issued} → Move (unlocking r) released (done r)
