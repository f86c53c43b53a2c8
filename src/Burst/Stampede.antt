-- ===== src/Burst/Stampede.antt =====
-- A burst of requests makes one token: once a token of the endpoint is cached, no request asks for
-- another until it is lost.
use vault_plugin_secrets_sal.Common.{
  ℕ, suc, ◌≤◌, ◌≡◌, ◌≢◌, refl, sym, ◌∙◌, ◌⊎◌, String, true, Option, Bool-cases, inl, inr, arith,
}
use vault_plugin_secrets_sal.Role.{Role}
use vault_plugin_secrets_sal.Token.{Time, TokenResult, CachedToken, fresh}
use vault_plugin_secrets_sal.Creds.{cached_token_of}
use vault_plugin_secrets_sal.Creds.Moves.{Pc}
use vault_plugin_secrets_sal.Burst.{
  Holder, free, reader, other, Shared, System, Env, Step, pick, other_locks, other_unlocks, dropped,
  other_puts, Reach, begin, later,
}
use vault_plugin_secrets_sal.Burst.Family.{update, update_self, update_ne}
use vault_plugin_secrets_sal.Burst.Exclusion.{
  critical, Locking, keeps, takes, gives, Move-Locking, Excludes, Reach-Excludes,
}
use vault_plugin_secrets_sal.Burst.Balance.{
  At, Spent, Spent-le, At-le, At-Spent, Spent-At, drop-At, Move-At,
}

pub holder-cases : (h : Holder) → ((i : ℕ) × (h ≡ reader i)) ⊎ ((i : ℕ) → h ≢ reader i)
holder-cases free = inr (λ i k. cc)
holder-cases (reader i) = inl (i, refl)
holder-cases other = inr (λ i k. cc)

module _ (env : Env) (name : String) (role : Role) where
  module _
      (lasting : (t t' : Time) (res : TokenResult)
        → env.Reading t
        → env.Reading t'
        → env.Answer res
        → fresh (cached_token_of t role res) t' role.renew_skew ≡ true) where
    -- The balance holds where the holder of the lock stands, or by itself.
    record Balanced (s : System) : Type 0 where
      held : (i : ℕ) → s.shared.holder ≡ reader i → At env name role (s.pc i) s.shared
      unheld : ((i : ℕ) → s.shared.holder ≢ reader i) → Spent env name role s.shared

    pick-Balanced :
        (s : System) (i : ℕ) (m : Shared) (p : Pc)
        → Excludes s
        → Locking i s.shared m (s.pc i) p
        → (At env name role (s.pc i) s.shared → At env name role p m)
        → Balanced s
        → Balanced (record { shared = m; pc = update s.pc i p })
    pick-Balanced s i m p x (keeps c h quiet) next b = elim (Bool-cases (critical (s.pc i))) [
      | inl in_i ↦ record {
        held = λ j k.
            let mine = x.exclusive i in_i in
            let same : i ≡ j = cc in rw (← same, update_self s.pc i p) (next (b.held i mine));
        unheld = λ f. absurd (f i (h ∙ x.exclusive i in_i));
      }
      | inr out_i ↦
          let same = quiet out_i in
          record {
            held = λ j k.
                let there : s.shared.holder ≡ reader j = sym h ∙ k in
                let in_j = x.inside j there in
                let differ : i ≢ j = λ e. cc in
                rw (update_ne s.pc i p j differ, same) (b.held j there);
            unheld = λ f. rw same (b.unheld (λ j k. f j (h ∙ k)));
          }
    ]
    pick-Balanced s i m p x (takes c d was now) next b = record {
      held = λ j k.
          let same : i ≡ j = cc in
          let spent = b.unheld (λ j' k'. cc) in
          rw (← same, update_self s.pc i p)
            (next (Spent-At env name role (s.pc i) s.shared c spent));
      unheld = λ f. absurd (f i now);
    }
    pick-Balanced s i m p x (gives c d now) next b = record {
      held = λ j k. cc;
      unheld = λ f. At-Spent env name role p m d (next (b.held i (x.exclusive i c)));
    }

    module _ (n : ℕ) where
      Step-Balanced :
          {s t : System} → Excludes s → Step env name role n s t → Balanced s → Balanced t
      Step-Balanced {s = s} x (pick i lt mv a) b =
          pick-Balanced s i _ _ x (Move-Locking env name role mv a)
            (Move-At env name role lasting mv a) b
      Step-Balanced x (other_locks h) b = record {
        held = λ i k. cc;
        unheld = λ f. b.unheld (λ i k. cc);
      }
      Step-Balanced x (other_unlocks h) b = record {
        held = λ i k. cc;
        unheld = λ f. b.unheld (λ i k. cc);
      }
      Step-Balanced {s = s} x dropped b = record {
        held = λ i k. drop-At env name role (s.pc i) s.shared (b.held i k);
        unheld = λ f. let before = b.unheld f in inl (omega arith);
      }
      Step-Balanced x (other_puts ct h) b = record {
        held = λ i k. cc;
        unheld = λ f. let before = b.unheld f in inl (omega arith);
      }

      Reach-Balanced :
          {c : Option CachedToken} {s : System} → Reach env name role n c s → Balanced s
      Reach-Balanced begin = record { held = λ i k. cc; unheld = λ f. inl (omega arith) }
      Reach-Balanced (later r st) =
          Step-Balanced (Reach-Excludes env name role n r) st (Reach-Balanced r)

      -- Where every token that the endpoint gives is fresh at every reading of the clock, a burst of
      -- requests, however they interleave, gets at most one token more from the endpoint than were
      -- lost, by a failed put, or since another request dropped or replaced the cached one.
      pub one_mint :
          {c : Option CachedToken} {s : System}
          → Reach env name role n c s
          → s.shared.minted ≤ suc s.shared.lost
      one_mint {s = s} r = elim (holder-cases s.shared.holder) [
        | inl (i, k) ↦ At-le env name role (s.pc i) s.shared ((Reach-Balanced r).held i k)
        | inr f ↦ Spent-le env name role s.shared ((Reach-Balanced r).unheld f)
      ]
