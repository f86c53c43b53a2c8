-- ===== src/Tests/Bursts.antt =====
-- Bursts of two requests for a token, and a write of the configuration between their moves.
use vault_plugin_secrets_sal.Common.Int.{◌+ℤ◌, wrap_int64, neg}
use native.Mathlib.Decide.{ℕ_discrete}
use vault_plugin_secrets_sal.Common.{
  ◌↔◌, ℕ, suc, ◌+◌, ◌≤◌, ◌<◌, ◌≡◌, ◌≢◌, refl, ◌⊎◌, true, false, none, some, [], ◌∷◌, arith,
}
use vault_plugin_secrets_sal.Common.Int.{pos}
use vault_plugin_secrets_sal.Errors.{ok}
use vault_plugin_secrets_sal.Config.{Config}
use vault_plugin_secrets_sal.Token.{Time, TokenResult, fresh}
use vault_plugin_secrets_sal.Platform.{received}
use vault_plugin_secrets_sal.Platform.Memory.{memory}
use vault_plugin_secrets_sal.Action.{State}
use vault_plugin_secrets_sal.Creds.{cached_token_of, issue_token}
use vault_plugin_secrets_sal.Creds.Moves.{Issued, start, done, storing, Move}
use vault_plugin_secrets_sal.Creds.Moves.Simulation.{Steps}
use vault_plugin_secrets_sal.Creds.Moves.Resume.{issue_token-Steps_iff}
use vault_plugin_secrets_sal.Burst.{
  reader, free, other, System, Env, load_gives, clock_reads, lock_won, lock_busy, endpoint_gives,
  put_done, pick, Reach, begin, later,
}
use vault_plugin_secrets_sal.Burst.Exclusion.{mutual_exclusion}
use vault_plugin_secrets_sal.Burst.Stampede.{one_mint}
use vault_plugin_secrets_sal.Burst.Termination.{moves_of, moves_of-le, moves_left}
use vault_plugin_secrets_sal.Burst.Progress.{Open, no_deadlock}
use vault_plugin_secrets_sal.Burst.Serving.{Unexpired, served-Unexpired}
use vault_plugin_secrets_sal.Role.Handlers.{role_refusal}
use vault_plugin_secrets_sal.Common.Int.{InRange}
use vault_plugin_secrets_sal.Burst.Rewrite.{Scene, Turn, Turns, scene, stale_token-served}
use vault_plugin_secrets_sal.Tests.Data.{app_memory, at_memory, acme, app}

abbrev running : State memory
running = at_memory (record app_memory { answers = received 200 "00Dxx!second" ∷ [] })

issue_token-Steps_iff_example :
    Steps memory "app" acme app
      (done (issue_token memory "app" acme app running).0)
      (issue_token memory "app" acme app running).1
      start
      running
    ↔ (issue_token memory "app" acme app running ≡ (
      (issue_token memory "app" acme app running).0,
      (issue_token memory "app" acme app running).1,
    ))
issue_token-Steps_iff_example =
    issue_token-Steps_iff memory "app" acme app running
      (issue_token memory "app" acme app running).1 (issue_token memory "app" acme app running).0

abbrev answer : TokenResult
answer = record {
  access_token = "00Dxx!first";
  instance_url = "https://acme.my.salesforce.com";
  token_type = "Bearer";
  scope = "api";
  expires_in = pos 0;
}

-- A burst in one second, and an endpoint with one answer.
abbrev one_second : Env
one_second = record { Reading = λ t. t ≡ pos 5; Answer = λ res. res ≡ answer }

abbrev Burst : System → Type 0
Burst = Reach one_second "app" app 2 none

first-lt : ◌<◌ 0 2
first-lt = omega arith

second-lt : ◌<◌ 1 2
second-lt = omega arith

reader-free : (i : ℕ) → reader i ≢ free
reader-free i k = cc

-- Request 0 holds the lock, and request 1 waits for it.
abbrev blocked : (s : System) × Burst s
unfolding ℕ_discrete
blocked =
    let r0 = later begin (pick 0 first-lt Move.fast_miss (load_gives refl)) in
    let r1 = later r0 (pick 0 first-lt Move.lock_free (lock_won refl)) in
    let r2 = later r1 (pick 1 second-lt Move.fast_miss (load_gives refl)) in
    let r3 = later r2 (pick 1 second-lt Move.lock_taken (lock_busy (reader-free 0))) in
    (_, later r3 (pick 1 second-lt Move.contended_miss (load_gives refl)))

-- Request 0 has stored the token of the endpoint.
abbrev stored_once : (s : System) × Burst s
unfolding ℕ_discrete blocked
stored_once =
    let r0 = later blocked.1 (pick 0 first-lt Move.recheck_miss (load_gives refl)) in
    let r1 = later r0 (pick 0 first-lt Move.mint_begins (clock_reads refl)) in
    let r2 = later r1 (pick 0 first-lt Move.mint_answers (endpoint_gives refl)) in
    (_, later r2 (pick 0 first-lt Move.store_done put_done))

mutual_exclusion_example : ◌≡◌ {A = ℕ} 0 0
unfolding blocked ℕ_discrete
mutual_exclusion_example = mutual_exclusion one_second "app" app 2 blocked.1 0 0 refl refl

one_second-fresh :
    (t t' : Time) (res : TokenResult)
    → one_second.Reading t
    → one_second.Reading t'
    → one_second.Answer res
    → fresh (cached_token_of t app res) t' app.renew_skew ≡ true
unfolding fresh cached_token_of ◌+ℤ◌ wrap_int64 neg
one_second-fresh t t' res p q r = rw (p, q, r) refl

one_mint_example : stored_once.0.shared.minted ≤ suc stored_once.0.shared.lost
unfolding stored_once
one_mint_example = one_mint one_second "app" app one_second-fresh 2 stored_once.1

moves_of-le_example :
    moves_of "app" app one_second 2 0 stored_once.1 + moves_left (stored_once.0.pc 0) ≤ 15
unfolding stored_once
moves_of-le_example = moves_of-le "app" app one_second 2 0 stored_once.1

not_done : (x : Issued) → blocked.0.pc 1 ≢ done x
unfolding blocked ℕ_discrete
not_done x k = cc

no_deadlock_example :
    ((j : ℕ) × (j < 2) × Open "app" app one_second 2 j (blocked.0.pc j) blocked.0.shared)
    ⊎ (blocked.0.shared.holder ≡ other)
no_deadlock_example =
    no_deadlock "app" app one_second 2 (pos 5) refl blocked.1 1 (omega arith) not_done

app-checked : role_refusal app ≡ none
unfolding role_refusal
app-checked = refl

app-InRange : InRange app.renew_skew
app-InRange = (omega arith, omega arith)

-- Request 0 finds a fresh token.
token_is_fresh : fresh (cached_token_of (pos 5) app answer) (pos 5) app.renew_skew ≡ true
token_is_fresh = one_second-fresh (pos 5) (pos 5) answer refl refl refl

abbrev served :
    (s : System) × Reach one_second "app" app 2 (some (cached_token_of (pos 5) app answer)) s
unfolding ℕ_discrete
served =
    let r0 = later begin (pick 0 first-lt Move.fast_hit (load_gives refl)) in
    (_, later r0 (pick 0 first-lt (Move.fast_fresh token_is_fresh) (clock_reads refl)))

served-Unexpired_example : Unexpired one_second (cached_token_of (pos 5) app answer)
unfolding served ℕ_discrete
served-Unexpired_example =
    served-Unexpired one_second "app" app app-checked app-InRange 2 served.1 0
      (cached_token_of (pos 5) app answer) refl

abbrev moved : Config
moved = record acme { client_id = "3MVG10" }

first-fresh : fresh (cached_token_of (pos 5) app answer) (pos 5) app.renew_skew ≡ true
unfolding fresh cached_token_of ◌+ℤ◌ wrap_int64 neg
first-fresh = refl

stale_token-served_example :
    (before_write : Scene) × (stored : Scene) × (purged : Scene) × (served : Scene) × Turns
      one_second "app" app
      (scene one_second "app" app acme)
      before_write
    × (before_write.config ≡ acme)
    × (before_write.writing ≡ false)
    × (before_write.under 0 ≡ some acme)
    × (before_write.system.pc 0 ≡ storing (cached_token_of (pos 5) app answer))
    × (before_write.system.shared.holder ≡ reader 0)
    × Turn one_second "app" app before_write stored
    × (stored.config ≡ moved)
    × Turn one_second "app" app stored purged
    × (purged.writing ≡ false)
    × (purged.system.shared.cached ≡ none)
    × (purged.system.shared.lost ≡ suc before_write.system.shared.lost)
    × (purged.under 1 ≡ none)
    × Turns one_second "app" app purged served
    × (served.system.shared.lost ≡ purged.system.shared.lost)
    × (served.system.pc 0 ≡ done (ok (cached_token_of (pos 5) app answer, false)))
    × (served.under 1 ≡ some moved)
    × (served.system.pc 1 ≡ done (ok (cached_token_of (pos 5) app answer, true)))
stale_token-served_example =
    stale_token-served one_second "app" app acme moved (pos 5) answer refl refl first-fresh
