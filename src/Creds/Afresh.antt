-- ===== src/Creds/Afresh.antt =====
-- Tokens under the current configuration: a read of credentials that finds no cached token of the
-- role answers with one that was minted for the role and the configuration that it read.
use vault_plugin_secrets_sal.Common.{
  String, ◌<>◌, ◌≡◌, ◌∙◌, refl, ap, inl, inr, Bool, true, false, Option, none, some, if◌then◌else◌,
}
use mathlib.Core.Path.{subst}
use vault_plugin_secrets_sal.Errors.{Error, Outcome, ok, fail}
use vault_plugin_secrets_sal.Config.{Config}
use vault_plugin_secrets_sal.Role.{Role}
use vault_plugin_secrets_sal.Token.{Time, TokenResult, CachedToken, cache_storage_prefix}
use vault_plugin_secrets_sal.Platform.{Platform}
use vault_plugin_secrets_sal.Platform.Laws.{IsLawful}
use vault_plugin_secrets_sal.Action.{State, call, try_call}
use vault_plugin_secrets_sal.Action.Keeps.{Keeps, Keeps-bind-lift}
use vault_plugin_secrets_sal.Action.Yields.{
  Yields, Yields-Keeps, Yields-pure, Yields-raise, Yields-lift, Yields-attempt, Yields-if,
  Yields-option, Yields-bind, Yields-then,
}
use vault_plugin_secrets_sal.Storage.{
  get_cached_token, put_cached_token, delete_cached_token, decoded,
}
use vault_plugin_secrets_sal.Storage.Stored.{stored_token}
use vault_plugin_secrets_sal.Storage.Reads.{decoded_encode, get_cached_token-stored}
use vault_plugin_secrets_sal.Storage.Frames.{
  IsStable, Keeps-now, Keeps-log, Keeps-try_lock, Keeps-unlock, Keeps-get_cached_token,
}
use vault_plugin_secrets_sal.Creds.{
  cached_token_of, mint_token, mint_and_cache, fresh_or_none, fresh_cached, unexpired_or_none,
  unexpired_cached, fail_closed, serve_or_fail, after_mint, issue_locked, then_unlock,
  issue_contended, issue_token,
}
use vault_plugin_secrets_sal.Creds.Frames.{Keeps-mint_token}

-- A token that the token endpoint gave for the role under the configuration.
abbrev pub MintedFor : (V : Platform) → Config → Role → CachedToken → Type 0
MintedFor V cfg role ct =
    (now : Time) × (res : TokenResult) × (s : State V) × ((mint_token V cfg role s).0 ≡ ok res)
    × (ct ≡ cached_token_of now role res)

module _ {V : Platform} (L : IsLawful V) (name : String) (cfg : Config) (role : Role) where
  -- The cached token of the role, if there is one, was minted so.
  abbrev pub CachedFor : State V → Type 0
  CachedFor s = (ct : CachedToken) → stored_token L s name ≡ ok (some ct) → MintedFor V cfg role ct

  module _ (waited : Keeps CachedFor (call V (V.lock name))) where
    stable : IsStable L (λ j. ⊥) CachedFor
    stable = record {
      transfer = λ s t agree h ct e. h ct (rw (agree (cache_storage_prefix <> name) (λ x. x)) at e);
    }

    Keeps-put :
        (ct : CachedToken) → MintedFor V cfg role ct → Keeps CachedFor (put_cached_token V name ct)
    unfolding put_cached_token try_call
    Keeps-put ct minted = Keeps-bind-lift _ _ λ e encoded. record {
      at = λ s h t stored.
          elim (L.storage.view-put (cache_storage_prefix <> name) e s.world
            (cache_storage_prefix <> name)) [
              | inl same ↦ h t (rw same at stored)
              | inr (_, written) ↦
                  let same : ct ≡ t = cc (
                    stored,
                    ap (decoded V.token_json) written
                        ∙ decoded_encode V.token_json L.token_json ct encoded,
                  ) in
                  subst (MintedFor V cfg role) same minted
            ];
    }

    Keeps-drop : Keeps CachedFor (delete_cached_token V name)
    unfolding delete_cached_token try_call decoded
    Keeps-drop = record {
      at = λ s h t stored.
          elim (L.storage.view-delete (cache_storage_prefix <> name) s.world
            (cache_storage_prefix <> name)) [
              | inl same ↦ h t (rw same at stored)
              | inr (_, gone) ↦ cc (stored, gone)
            ];
    }

    abbrev Each : Option CachedToken → Type 0
    Each o = (ct : CachedToken) → o ≡ some ct → MintedFor V cfg role ct

    abbrev IsMinted : CachedToken × Bool → Type 0
    IsMinted r = MintedFor V cfg role r.0

    get_cached_token-Each : Yields CachedFor (get_cached_token V name) Each
    get_cached_token-Each = record {
      keeps = Keeps-get_cached_token L stable name;
      result = λ s h {a = o} got ct e. h ct (get_cached_token-stored L name s got ∙ ap ok e);
    }

    -- A test may drop the token, and does not change it.
    Each-if : (b : Bool) (ct : CachedToken) → Each (some ct) → Each (if b then some ct else none)
    Each-if true ct h = h
    Each-if false ct h = λ t e. cc

    fresh_or_none-Each :
        (o : Option CachedToken) → Each o → Yields CachedFor (fresh_or_none V role o) Each
    unfolding fresh_or_none
    fresh_or_none-Each none h = Yields-pure none h
    fresh_or_none-Each (some ct) h =
        Yields-bind _ _ (Yields-Keeps _ (Keeps-now L stable))
          λ now _. Yields-pure _ (Each-if _ ct h)

    fresh_cached-Each : Yields CachedFor (fresh_cached V name role) Each
    unfolding fresh_cached
    fresh_cached-Each = Yields-bind _ _ get_cached_token-Each fresh_or_none-Each

    unexpired_or_none-Each :
        (r : Outcome (Option CachedToken))
        → ((o : Option CachedToken) → r ≡ ok o → Each o)
        → Yields CachedFor (unexpired_or_none V r) Each
    unfolding unexpired_or_none
    unexpired_or_none-Each (fail e) h = Yields-pure none (λ ct e. cc)
    unexpired_or_none-Each (ok none) h = Yields-pure none (λ ct e. cc)
    unexpired_or_none-Each (ok (some ct)) h =
        Yields-bind _ _ (Yields-Keeps _ (Keeps-now L stable))
          λ now _. Yields-pure _ (Each-if _ ct (h (some ct) refl))

    unexpired_cached-Each : Yields CachedFor (unexpired_cached V name) Each
    unfolding unexpired_cached
    unexpired_cached-Each =
        Yields-bind _ _ (Yields-attempt _ get_cached_token-Each) unexpired_or_none-Each

    mint_token-Answered :
        Yields CachedFor
          (mint_token V cfg role)
          (λ res. (s : State V) × ((mint_token V cfg role s).0 ≡ ok res))
    mint_token-Answered = record {
      keeps = Keeps-mint_token L stable cfg role;
      result = λ s h got. (s, got);
    }

    mint_and_cache-MintedFor :
        Yields CachedFor (mint_and_cache V name cfg role) (MintedFor V cfg role)
    unfolding mint_and_cache
    mint_and_cache-MintedFor = Yields-bind _ _ (Yields-Keeps _ (Keeps-now L stable)) λ now _.
        Yields-bind _ _ mint_token-Answered λ res (s, got).
          let ct = cached_token_of now role res in
          let minted : MintedFor V cfg role ct = (now, res, s, got, refl) in
          Yields-then _ _ (Keeps-put ct minted)
            (Yields-then _ _ (Keeps-log L stable _) (Yields-pure ct minted))

    fail_closed-IsMinted : (e : Error) → Yields CachedFor (fail_closed V name e) IsMinted
    unfolding fail_closed
    fail_closed-IsMinted e =
        Yields-if _ _ _ (Yields-then _ _ Keeps-drop (Yields-raise e)) (Yields-raise e)

    serve_or_fail-IsMinted :
        (e : Error) (o : Option CachedToken)
        → Each o
        → Yields CachedFor (serve_or_fail V name e o) IsMinted
    unfolding serve_or_fail
    serve_or_fail-IsMinted e none h = fail_closed-IsMinted e
    serve_or_fail-IsMinted e (some ct) h =
        Yields-if _ _ _
          (Yields-then _ _ (Keeps-log L stable _) (Yields-pure (ct, true) (h ct refl)))
          (fail_closed-IsMinted e)

    after_mint-IsMinted :
        (r : Outcome CachedToken)
        → ((ct : CachedToken) → r ≡ ok ct → MintedFor V cfg role ct)
        → Yields CachedFor (after_mint V name r) IsMinted
    unfolding after_mint
    after_mint-IsMinted (ok ct) h = Yields-pure (ct, false) (h ct refl)
    after_mint-IsMinted (fail e) h =
        Yields-bind _ _ unexpired_cached-Each (serve_or_fail-IsMinted e)

    issue_locked-IsMinted : Yields CachedFor (issue_locked V name cfg role) IsMinted
    unfolding issue_locked
    issue_locked-IsMinted = Yields-bind _ _ fresh_cached-Each λ hit h.
        Yields-option hit _ _
          (λ _. Yields-bind _ _ (Yields-attempt _ mint_and_cache-MintedFor) after_mint-IsMinted)
          (λ ct e. Yields-pure (ct, true) (h ct e))

    then_unlock-IsMinted :
        Yields CachedFor (then_unlock V name (issue_locked V name cfg role)) IsMinted
    unfolding then_unlock
    then_unlock-IsMinted =
        Yields-bind _ _ (Yields-attempt _ issue_locked-IsMinted)
          λ r h. Yields-then _ _ (Keeps-unlock L stable name) (Yields-lift r h)

    issue_contended-IsMinted : Yields CachedFor (issue_contended V name cfg role) IsMinted
    unfolding issue_contended
    issue_contended-IsMinted = Yields-bind _ _ unexpired_cached-Each λ usable h.
        Yields-option usable _ _ (λ _. Yields-then _ _ waited then_unlock-IsMinted)
          (λ ct e. Yields-pure (ct, true) (h ct e))

    -- Where the cached token of the role was minted for it under the configuration, if there is one,
    -- so is each token that is issued, whichever way; and what is cached then.
    pub issue_token-IsMinted : Yields CachedFor (issue_token V name cfg role) IsMinted
    unfolding issue_token
    issue_token-IsMinted = Yields-bind _ _ fresh_cached-Each λ hit h.
        Yields-option hit _ _
          (λ _.
            Yields-bind _ _ (Yields-Keeps _ (Keeps-try_lock L stable name))
              λ locked _. Yields-if locked _ _ then_unlock-IsMinted issue_contended-IsMinted)
          (λ ct e. Yields-pure (ct, true) (h ct e))
