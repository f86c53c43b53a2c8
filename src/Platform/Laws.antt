-- ===== src/Platform/Laws.antt =====
-- What the proofs assume of the platform, as Vault and Go document it.
use Prim.Native.Char.{code}
use vault_plugin_secrets_sal.Common.{
  String, ◌<>◌, Bool, true, false, ◌≡◌, ◌≢◌, ◌⊎◌, Option, none, some, List, [], ◌∷◌, ◌==◌, num_eq,
  if◌then◌else◌,
}
use vault_plugin_secrets_sal.Common.Int.{ℤ}
use vault_plugin_secrets_sal.Errors.{ok}
use vault_plugin_secrets_sal.Role.{Duration}
use vault_plugin_secrets_sal.Platform.{Platform, Codec, HttpClient, HttpRequest, LogLine}

-- Decoding an entry gives back what was encoded.
pub record RoundTrips {E A : Type 0} (codec : Codec E A) : Type 0 where
  pub decode-encode : (a : A) {e : E} → codec.encode a ≡ ok e → codec.decode e ≡ ok a

-- A name is in the list.
abbrev pub contains : List String → String → Bool
contains [] name = false
contains (n ∷ names) name = let rest = contains names name in if n == name then true else rest

-- A name with no further level of the path below it, as every name that the routes accept.
abbrev pub is_flat : String → Bool
is_flat String.[] = true
is_flat (String.◌∷◌ c s) = let rest = is_flat s in if num_eq (code c) b'/' then false else rest

-- A storage, seen through the entries that it holds. A failed write may have been done or not.
pub record IsStorage (V : Platform) (view : V.World → String → Option V.Entry) : Type 0 where
  pub get-view :
      (k : String) (w : V.World) {o : Option V.Entry} → (V.storage_get k w).0 ≡ ok o → o ≡ view w k
  pub view-get : (k : String) (w : V.World) (j : String) → view (V.storage_get k w).1 j ≡ view w j
  pub put-view :
      (k : String) (e : V.Entry) (w : V.World) {u : Unit {0}}
      → (V.storage_put k e w).0 ≡ ok u
      → view (V.storage_put k e w).1 k ≡ some e
  pub view-put :
      (k : String) (e : V.Entry) (w : V.World) (j : String)
      → (view (V.storage_put k e w).1 j ≡ view w j)
        ⊎ ((j ≡ k) × (view (V.storage_put k e w).1 j ≡ some e))
  pub delete-view :
      (k : String) (w : V.World) {u : Unit {0}}
      → (V.storage_delete k w).0 ≡ ok u
      → view (V.storage_delete k w).1 k ≡ none
  pub view-delete :
      (k : String) (w : V.World) (j : String)
      → (view (V.storage_delete k w).1 j ≡ view w j)
        ⊎ ((j ≡ k) × (view (V.storage_delete k w).1 j ≡ none))
  -- The list has every flat name below the prefix that has an entry.
  pub list-view :
      (p : String) (w : V.World) {names : List String}
      → (V.storage_list p w).0 ≡ ok names
      → (name : String) → is_flat name ≡ true
      → view w (p <> name) ≢ none
      → contains names name ≡ true
  pub view-list : (p : String) (w : V.World) (j : String) → view (V.storage_list p w).1 j ≡ view w j

-- The calls that do not touch the storage. Waiting for a lock is not among them: while a request
-- waits, others run.
pub record IsQuiet (V : Platform) (view : V.World → String → Option V.Entry) : Type 0 where
  pub view-try_lock : (k : String) (w : V.World) (j : String) → view (V.try_lock k w).1 j ≡ view w j
  pub view-unlock : (k : String) (w : V.World) (j : String) → view (V.unlock k w).1 j ≡ view w j
  pub view-now : (w : V.World) (j : String) → view (V.now w).1 j ≡ view w j
  pub view-rand_int63n :
      (n : ℤ) (w : V.World) (j : String) → view (V.rand_int63n n w).1 j ≡ view w j
  pub view-wait : (d : Duration) (w : V.World) (j : String) → view (V.wait d w).1 j ≡ view w j
  pub view-context_error : (w : V.World) (j : String) → view (V.context_error w).1 j ≡ view w j
  pub view-post :
      (c : HttpClient) (r : HttpRequest) (w : V.World) (j : String)
      → view (V.post c r w).1 j ≡ view w j
  pub view-log : (l : LogLine) (w : V.World) (j : String) → view (V.log l w).1 j ≡ view w j

-- A platform that keeps what the engine relies on, with its view.
pub record IsLawful (V : Platform) : Type 0 where
  pub view : V.World → String → Option V.Entry
  pub storage : IsStorage V view
  pub quiet : IsQuiet V view
  pub config_json : RoundTrips V.config_json
  pub role_json : RoundTrips V.role_json
  pub token_json : RoundTrips V.token_json
