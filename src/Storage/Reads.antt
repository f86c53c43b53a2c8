-- ===== src/Storage/Reads.antt =====
-- The reads of the storage give what is stored, and change nothing.
use vault_plugin_secrets_sal.Common.{String, ◌≡◌, ◌≢◌, none, Option, some, arith, inl, inr}
use vault_plugin_secrets_sal.Errors.{ok, Outcome-cases}
use vault_plugin_secrets_sal.Config.{Config}
use vault_plugin_secrets_sal.Role.{Role}
use vault_plugin_secrets_sal.Token.{CachedToken}
use vault_plugin_secrets_sal.Platform.{Platform, Codec}
use vault_plugin_secrets_sal.Platform.Laws.{IsLawful, RoundTrips}
use vault_plugin_secrets_sal.Action.{State, lift, try_call, ◌>>=◌}
use vault_plugin_secrets_sal.Storage.{decoded, get_config, get_role, get_cached_token}
use vault_plugin_secrets_sal.Storage.Stored.{entry, stored_config, stored_role, stored_token}

pub decoded_encode :
    {E A : Type 0} (codec : Codec E A) (r : RoundTrips codec) (a : A) {e : E}
    → codec.encode a ≡ ok e
    → decoded codec (some e) ≡ ok (some a)
unfolding decoded
decoded_encode codec r a h = rw (r.decode-encode a h, decoded)

pub decoded-present :
    {E A : Type 0} (codec : Codec E A) {o : Option E} {a : A}
    → decoded codec o ≡ ok (some a)
    → o ≢ none
unfolding decoded
decoded-present codec h n = cc (h, n)

module _ {V : Platform} (L : IsLawful V) where
  -- One read of a key: a result is what is stored.
  read_entry :
      {A : Type 0} (codec : Codec V.Entry A) (k : String) (s : State V) {o : Option A}
      → ((try_call V (V.storage_get k) >>= (λ e. lift (decoded codec e))) s).0 ≡ ok o
      → decoded codec (entry L s k) ≡ ok o
  unfolding ◌>>=◌
  read_entry codec k s h = elim (Outcome-cases (V.storage_get k s.world).0) [
    | inl (e, p) ↦ rw (← L.storage.get-view k s.world p) (ground arith)
    | inr (e, p) ↦ ground arith
  ]

  module _ (name : String) (s : State V) where
    -- A reading of a record gives what is stored under its key.
    pub get_config-stored :
        {o : Option Config} → (get_config V name s).0 ≡ ok o → stored_config L s name ≡ ok o
    unfolding get_config
    get_config-stored h = read_entry V.config_json _ s h

    pub get_role-stored :
        {o : Option Role} → (get_role V name s).0 ≡ ok o → stored_role L s name ≡ ok o
    unfolding get_role
    get_role-stored h = read_entry V.role_json _ s h

    pub get_cached_token-stored :
        {o : Option CachedToken}
        → (get_cached_token V name s).0 ≡ ok o
        → stored_token L s name ≡ ok o
    unfolding get_cached_token
    get_cached_token-stored h = read_entry V.token_json _ s h
