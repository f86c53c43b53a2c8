-- ===== src/Creds/Minting.antt =====
-- What issuing a token (path_creds.go `issueToken`) guarantees: a token that is returned as freshly
-- minted is the one in the storage, and a definitive refusal purges the cached one.
use vault_plugin_secrets_sal.Common.{
  String, ◌<>◌, ◌≡◌, refl, ◌⊎◌, inl, inr, Bool, false, Option, none, some,
}
use vault_plugin_secrets_sal.Errors.{Error, Outcome, ok, fail, Outcome-cases}
use vault_plugin_secrets_sal.Config.{Config}
use vault_plugin_secrets_sal.Role.{Role}
use vault_plugin_secrets_sal.Token.{CachedToken, cache_storage_prefix}
use vault_plugin_secrets_sal.Platform.{Platform}
use vault_plugin_secrets_sal.Platform.Laws.{IsLawful}
use vault_plugin_secrets_sal.Action.{
  Action, State, call, try_call, raise, pure, lift, attempt, ◌>>=◌,
}
use vault_plugin_secrets_sal.Action.Inversion.{bind-ok}
use vault_plugin_secrets_sal.Action.Triples.{
  Triple, Any, Triple-Any, Triple-Keeps, Triple-pure, Triple-lift, Triple-attempt, Triple-bind,
}
use vault_plugin_secrets_sal.Storage.{get_cached_token, put_cached_token, delete_cached_token}
use vault_plugin_secrets_sal.Storage.Stored.{entry, stored_token}
use vault_plugin_secrets_sal.Storage.Reads.{decoded_encode}
use vault_plugin_secrets_sal.Storage.Frames.{IsStable, Keeps-unlock, Keeps-log}
use vault_plugin_secrets_sal.Client.{is_transient_mint_error}
use vault_plugin_secrets_sal.Creds.{
  cached_token_of, mint_and_cache, fail_closed, serve_or_fail, after_mint, then_unlock,
  unexpired_or_none, unexpired_cached,
}

module _ {V : Platform} (L : IsLawful V) (name : String) where
  -- The token is the one that is stored for the role.
  abbrev pub Holds : CachedToken → State V → Type 0
  Holds ct s = stored_token L s name ≡ ok (some ct)

  pub Holds-IsStable : (ct : CachedToken) → IsStable L (λ j. ⊥) (Holds ct)
  Holds-IsStable ct = record {
    transfer = λ s t agree h. rw (agree (cache_storage_prefix <> name) (λ x. x)) h;
  }

  put_cached_token-Holds :
      (ct : CachedToken) → Triple Any (put_cached_token V name ct) (λ _. Holds ct)
  unfolding put_cached_token try_call lift
  put_cached_token-Holds ct = record {
    at = λ s p h.
        let put = λ (e : V.Entry). try_call V (V.storage_put (cache_storage_prefix <> name) e) in
        let (e, encoded, same) = bind-ok (lift (V.token_json.encode ct)) put s h in
        rw (same, L.storage.put-view _ e s.world (rw same at h))
          (decoded_encode V.token_json L.token_json ct encoded);
  }

  pub mint_and_cache-Holds :
      (cfg : Config) (role : Role) → Triple Any (mint_and_cache V name cfg role) Holds
  unfolding mint_and_cache
  mint_and_cache-Holds cfg role = Triple-bind _ _ (Triple-Any _) λ now.
      Triple-bind _ _ (Triple-Any _) λ res.
        let ct = cached_token_of now role res in
        Triple-bind _ _ (put_cached_token-Holds ct) λ _.
          Triple-bind _ _ (Triple-Keeps _ (Keeps-log L (Holds-IsStable ct) _))
            λ _. Triple-pure ct (λ s h. h)

  -- What holds of a result under the lock still holds when the lock is given back.
  pub Triple-then_unlock :
      {A : Type 0} {Q : A → State V → Type 0} (m : Action V A)
      → ((a : A) → IsStable L (λ j. ⊥) (Q a))
      → Triple Any m Q
      → Triple Any (then_unlock V name m) Q
  unfolding then_unlock
  Triple-then_unlock {A = A} {Q = Q} m st t = Triple-bind _ _ (Triple-attempt m t) λ r.
      let P = λ (s : State V). (a : A) → r ≡ ok a → Q a s in
      let stable : IsStable L (λ j. ⊥) P = record {
        transfer = λ s u agree h a e. (st a).transfer s u agree (h a e);
      } in
      Triple-bind _ _ (Triple-Keeps _ (Keeps-unlock L stable name)) λ _. Triple-lift r (λ s h. h)

  -- What was refused for good: the error is passed on and the cached token is gone, or the storage
  -- failed to delete it.
  abbrev Refused : Error → Outcome (CachedToken × Bool) × State V → Type 0
  Refused e r =
      ((r.0 ≡ fail e) × (entry L r.1 (cache_storage_prefix <> name) ≡ none))
      ⊎ ((f : Error) × (w : V.World) × (r.0 ≡ fail f)
          × ((V.storage_delete (cache_storage_prefix <> name) w).0 ≡ fail f))

  fail_closed-Refused :
      (e : Error) (s : State V)
      → is_transient_mint_error e ≡ false
      → Refused e (fail_closed V name e s)
  unfolding fail_closed raise delete_cached_token try_call ◌>>=◌
  fail_closed-Refused e s definitive =
      elim (Outcome-cases (V.storage_delete (cache_storage_prefix <> name) s.world).0) [
        | inl (u, d) ↦ rw (definitive, d) (inl (refl, L.storage.delete-view _ s.world d))
        | inr (f, d) ↦ rw (definitive, d) (inr (f, s.world, refl, d))
      ]

  serve_or_fail-Refused :
      (e : Error) (o : Option CachedToken) (s : State V)
      → is_transient_mint_error e ≡ false
      → Refused e (serve_or_fail V name e o s)
  unfolding serve_or_fail
  serve_or_fail-Refused e none s definitive = fail_closed-Refused e s definitive
  serve_or_fail-Refused e (some ct) s definitive =
      let closed = fail_closed-Refused e s definitive in
      rw (serve_or_fail, fail_closed, definitive) (rw (fail_closed, definitive) at closed)

  unexpired_or_none-returns :
      (r : Outcome (Option CachedToken)) (s : State V)
      → (o : Option CachedToken) × ((unexpired_or_none V r s).0 ≡ ok o)
  unfolding unexpired_or_none pure call ◌>>=◌
  unexpired_or_none-returns (fail e) s = (none, refl)
  unexpired_or_none-returns (ok none) s = (none, refl)
  unexpired_or_none-returns (ok (some ct)) s = (_, refl)

  unexpired_cached-returns :
      (s : State V) → (o : Option CachedToken) × ((unexpired_cached V name s).0 ≡ ok o)
  unfolding unexpired_cached attempt ◌>>=◌
  unexpired_cached-returns s = unexpired_or_none-returns (get_cached_token V name s).0 _

  -- When the token endpoint refuses for good, the reader gets that error and no cached token, and
  -- the cached token of the role is gone; only a storage that fails to delete it changes that, and
  -- then the reader gets the storage's error.
  pub after_mint-Refused :
      (e : Error) (s : State V)
      → is_transient_mint_error e ≡ false
      → Refused e (after_mint V name (fail e) s)
  unfolding after_mint ◌>>=◌
  after_mint-Refused e s definitive =
      let (o, got) = unexpired_cached-returns s in
      rw (after_mint, ◌>>=◌, got) (serve_or_fail-Refused e o _ definitive)
