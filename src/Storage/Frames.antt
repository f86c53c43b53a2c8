-- ===== src/Storage/Frames.antt =====
-- Which keys the storage operations write. `W` holds of the keys that may be written, and `P` is
-- a property of the state that no change of those keys can break.
use vault_plugin_secrets_sal.Common.{
  String, ◌<>◌, ◌≡◌, ◌≢◌, ◌∙◌, inl, inr, Option, none, some, List, [], ◌∷◌,
}
use vault_plugin_secrets_sal.Common.Int.{ℤ}
use vault_plugin_secrets_sal.Role.{Role, Duration}
use vault_plugin_secrets_sal.Token.{CachedToken, cache_storage_prefix}
use vault_plugin_secrets_sal.Platform.{Platform, HttpClient, HttpRequest, LogLine}
use vault_plugin_secrets_sal.Platform.Laws.{IsLawful}
use vault_plugin_secrets_sal.Action.{State, call, try_call}
use vault_plugin_secrets_sal.Action.Keeps.{Keeps, Keeps-bind, keeps_rules}
use vault_plugin_secrets_sal.Storage.{
  get_config, get_role, get_cached_token, put_cached_token, delete_cached_token, delete_if_bound,
  delete_each_bound, delete_cached_tokens_for_config,
}
use vault_plugin_secrets_sal.Storage.Stored.{entry, SameEntries}

module _ {V : Platform} (L : IsLawful V) (W : String → Type 0) where
  -- Only keys of `W` differ.
  abbrev pub AgreeOutside : State V → State V → Type 0
  AgreeOutside s t = (j : String) → ¬ W j → entry L t j ≡ entry L s j

  pub record IsStable (P : State V → Type 0) : Type 0 where
    pub transfer : (s t : State V) → AgreeOutside s t → P s → P t

-- A put changes no other key.
pub put_ne :
    {V : Platform} (L : IsLawful V) (k : String) (e : V.Entry) (s : State V) (j : String)
    → j ≢ k
    → entry L (try_call V (V.storage_put k e) s).1 j ≡ entry L s j
unfolding try_call
put_ne L k e s j n = elim (L.storage.view-put k e s.world j) [
  | inl same ↦ same
  | inr (here, _) ↦ absurd (n here)
]

-- What only reads keeps all entries; what writes one key keeps the others.
pub SameEntries-IsStable :
    {V : Platform} (L : IsLawful V) (s : State V) → IsStable L (λ _. ⊥) (SameEntries L s)
SameEntries-IsStable L s = record { transfer = λ t u agree h j. agree j (λ x. x) ∙ h j }

pub OtherEntries-IsStable :
    {V : Platform} (L : IsLawful V) (W : String → Type 0) (s : State V)
    → IsStable L W (AgreeOutside L W s)
OtherEntries-IsStable L W s = record { transfer = λ t u agree h j n. agree j n ∙ h j n }

module _ {V : Platform} (L : IsLawful V) {W : String → Type 0} {P : State V → Type 0}
    (st : IsStable L W P) where
  -- A call of the platform that leaves the entries alone.
  quiet_call :
      {A : Type 0} (f : V.World → A × V.World)
      → ((w : V.World) (j : String) → L.view (f w).1 j ≡ L.view w j)
      → Keeps P (call V f)
  unfolding call
  quiet_call f q = record { at = λ s h. st.transfer s (call V f s).1 (λ j _. q s.world j) h }

  pub Keeps-now : Keeps P (call V V.now)
  Keeps-now = quiet_call V.now L.quiet.view-now

  pub Keeps-context_error : Keeps P (call V V.context_error)
  Keeps-context_error = quiet_call V.context_error L.quiet.view-context_error

  pub Keeps-log : (l : LogLine) → Keeps P (call V (V.log l))
  Keeps-log l = quiet_call (V.log l) (L.quiet.view-log l)

  pub Keeps-try_lock : (k : String) → Keeps P (call V (V.try_lock k))
  Keeps-try_lock k = quiet_call (V.try_lock k) (L.quiet.view-try_lock k)

  pub Keeps-unlock : (k : String) → Keeps P (call V (V.unlock k))
  Keeps-unlock k = quiet_call (V.unlock k) (L.quiet.view-unlock k)

  pub Keeps-rand_int63n : (n : ℤ) → Keeps P (call V (V.rand_int63n n))
  Keeps-rand_int63n n = quiet_call (V.rand_int63n n) (L.quiet.view-rand_int63n n)

  pub Keeps-wait : (d : Duration) → Keeps P (call V (V.wait d))
  Keeps-wait d = quiet_call (V.wait d) (L.quiet.view-wait d)

  pub Keeps-post : (c : HttpClient) (r : HttpRequest) → Keeps P (call V (V.post c r))
  Keeps-post c r = quiet_call (V.post c r) (L.quiet.view-post c r)

  pub Keeps-get : (k : String) → Keeps P (try_call V (V.storage_get k))
  unfolding try_call
  Keeps-get k = record {
    at = λ s h.
        st.transfer s (try_call V (V.storage_get k) s).1 (λ j _. L.storage.view-get k s.world j) h;
  }

  pub Keeps-list : (p : String) → Keeps P (try_call V (V.storage_list p))
  unfolding try_call
  Keeps-list p = record {
    at = λ s h.
        st.transfer s (try_call V (V.storage_list p) s).1 (λ j _. L.storage.view-list p s.world j)
          h;
  }

  pub Keeps-put : (k : String) (e : V.Entry) → W k → Keeps P (try_call V (V.storage_put k e))
  unfolding try_call
  Keeps-put k e wk = record {
    at = λ s h.
        st.transfer s (try_call V (V.storage_put k e) s).1
          (λ j n. elim (L.storage.view-put k e s.world j) [
            | inl same ↦ same
            | inr (here, _) ↦ absurd (n (rw here wk))
          ])
          h;
  }

  pub Keeps-delete : (k : String) → W k → Keeps P (try_call V (V.storage_delete k))
  unfolding try_call
  Keeps-delete k wk = record {
    at = λ s h.
        st.transfer s (try_call V (V.storage_delete k) s).1
          (λ j n. elim (L.storage.view-delete k s.world j) [
            | inl same ↦ same
            | inr (here, _) ↦ absurd (n (rw here wk))
          ])
          h;
  }

  pub Keeps-get_config : (name : String) → Keeps P (get_config V name)
  unfolding get_config
  Keeps-get_config name = search (keeps_rules, Keeps-get)

  pub Keeps-get_role : (name : String) → Keeps P (get_role V name)
  unfolding get_role
  Keeps-get_role name = search (keeps_rules, Keeps-get)

  pub Keeps-get_cached_token : (name : String) → Keeps P (get_cached_token V name)
  unfolding get_cached_token
  Keeps-get_cached_token name = search (keeps_rules, Keeps-get)

  pub Keeps-put_cached_token :
      (name : String) (ct : CachedToken)
      → W (cache_storage_prefix <> name)
      → Keeps P (put_cached_token V name ct)
  unfolding put_cached_token
  Keeps-put_cached_token name ct w = search (keeps_rules, Keeps-put)

  pub Keeps-delete_cached_token :
      (name : String) → W (cache_storage_prefix <> name) → Keeps P (delete_cached_token V name)
  unfolding delete_cached_token
  Keeps-delete_cached_token name w = Keeps-delete _ w

  -- The purge of a configuration's tokens only reads, and deletes cached tokens.
  module _ (del : (name : String) → Keeps P (delete_cached_token V name)) where
    pub Keeps-delete_if_bound :
        (config_name name : String) (role : Option Role)
        → Keeps P (delete_if_bound V config_name name role)
    unfolding delete_if_bound
    Keeps-delete_if_bound config_name name none = search keeps_rules
    Keeps-delete_if_bound config_name name (some role) = search (keeps_rules, del)

    pub Keeps-delete_each_bound :
        (config_name : String) (names : List String)
        → Keeps P (delete_each_bound V config_name names)
    unfolding delete_each_bound
    Keeps-delete_each_bound config_name [] = search keeps_rules
    Keeps-delete_each_bound config_name (name ∷ names) =
        Keeps-bind _ _ (Keeps-get_role name) λ role.
          Keeps-bind _ _ (Keeps-delete_if_bound config_name name role)
            λ _. Keeps-delete_each_bound config_name names

    pub Keeps-delete_cached_tokens_for_config :
        (config_name : String) → Keeps P (delete_cached_tokens_for_config V config_name)
    unfolding delete_cached_tokens_for_config
    Keeps-delete_cached_tokens_for_config config_name =
        Keeps-bind _ _ (Keeps-list _) (Keeps-delete_each_bound config_name)
