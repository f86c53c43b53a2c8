-- ===== src/Platform/Memory/Lawful.antt =====
-- The platform in memory meets the assumptions of the proofs.
use vault_plugin_secrets_sal.Common.{
  String, ◌<>◌, ◌≡◌, ◌≢◌, refl, sym, ◌⊎◌, inl, inr, true, Option, none, some, List, [], ◌∷◌, arith,
  ◌==◌, eq_iff, eq_refl, if◌then◌else◌, text-cases,
}
use vault_plugin_secrets_sal.Common.Text.{strip_prefix, strip_prefix_of_append}
use vault_plugin_secrets_sal.Errors.{Outcome, ok}
use vault_plugin_secrets_sal.Platform.Laws.{IsLawful, contains}
use vault_plugin_secrets_sal.Platform.Memory.{
  MemoryEntry, config_entry, role_entry, token_entry, lookup, without, cons_if, names_below,
  as_config, as_role, as_token, memory,
}

pub lookup-without :
    (k j : String) (m : List (String × MemoryEntry))
    → lookup j (without k m) ≡ (if k == j then none else lookup j m)
unfolding lookup without
lookup-without k j [] = ground arith
lookup-without k j ((i, e) ∷ m) =
    ground (arith, lookup-without k j m, eq_iff i k, eq_iff i j, eq_iff k j)

contains-cons_if :
    (o : Option String) (names : List String) (name : String)
    → contains names name ≡ true
    → contains (cons_if o names) name ≡ true
contains-cons_if none names name h = h
contains-cons_if (some n) names name h = ground arith

pub contains-names_below :
    (p name : String) (m : List (String × MemoryEntry))
    → lookup (p <> name) m ≢ none
    → contains (names_below p m) name ≡ true
unfolding lookup names_below
contains-names_below p name [] h = absurd (h refl)
contains-names_below p name ((j, e) ∷ m) h = elim (text-cases j (p <> name)) [
  | inl (_, here) ↦ rw (here, strip_prefix_of_append p name, eq_refl name)
  | inr (differ, _) ↦
      contains-cons_if (strip_prefix p j) (names_below p m) name
        (contains-names_below p name m (rw differ at h))
]

pub ok-injective : {A : Type 0} (a b : A) → ◌≡◌ {A = Outcome A} (ok a) (ok b) → b ≡ a
ok-injective a b h = cc

pub put_self :
    (k : String) (e : MemoryEntry) (m : List (String × MemoryEntry))
    → lookup k ((k, e) ∷ m) ≡ some e
unfolding lookup
put_self k e m = rw (eq_refl k)

pub put_cases :
    (k : String) (e : MemoryEntry) (m : List (String × MemoryEntry)) (j : String)
    → (lookup j ((k, e) ∷ m) ≡ lookup j m) ⊎ ((j ≡ k) × (lookup j ((k, e) ∷ m) ≡ some e))
unfolding lookup
put_cases k e m j = elim (text-cases k j) [
  | inl (same, here) ↦ inr (sym here, rw same)
  | inr (differ, _) ↦ inl (rw differ)
]

pub delete_self : (k : String) (m : List (String × MemoryEntry)) → lookup k (without k m) ≡ none
delete_self k m = rw (lookup-without k k m, eq_refl k)

pub delete_cases :
    (k : String) (m : List (String × MemoryEntry)) (j : String)
    → (lookup j (without k m) ≡ lookup j m) ⊎ ((j ≡ k) × (lookup j (without k m) ≡ none))
delete_cases k m j = elim (text-cases k j) [
  | inl (same, here) ↦ inr (sym here, rw (lookup-without k j m, same))
  | inr (differ, _) ↦ inl (rw (lookup-without k j m, differ))
]

-- Encoding is a constructor, and decoding takes it off again.
pub decode_of_encode :
    {A : Type 0} (wrap : A → MemoryEntry) (decode : MemoryEntry → Outcome A)
    → ((a : A) → decode (wrap a) ≡ ok a)
    → (a : A) {e : MemoryEntry} → ◌≡◌ {A = Outcome MemoryEntry} (ok (wrap a)) (ok e)
    → decode e ≡ ok a
decode_of_encode wrap decode back a {e} h = let same : wrap a ≡ e = cc in rw (← same) (back a)

unfoldable pub memory-IsLawful : IsLawful memory
unfolding memory
memory-IsLawful = record {
  view = λ m k. lookup k m.entries;
  storage = record {
    get-view = λ k m h. ok-injective _ _ h;
    view-get = λ k m j. refl;
    put-view = λ k e m h. put_self k e m.entries;
    view-put = λ k e m j. put_cases k e m.entries j;
    delete-view = λ k m h. delete_self k m.entries;
    view-delete = λ k m j. delete_cases k m.entries j;
    list-view = λ p m h name flat held.
        rw (ok-injective _ _ h) (contains-names_below p name m.entries held);
    view-list = λ p m j. refl;
  };
  quiet = record {
    view-try_lock = λ k m j. refl;
    view-unlock = λ k m j. refl;
    view-now = λ m j. refl;
    view-rand_int63n = λ n m j. refl;
    view-wait = λ d m j. refl;
    view-context_error = λ m j. refl;
    view-post = λ c r m j. refl;
    view-log = λ l m j. refl;
  };
  config_json = record { decode-encode = decode_of_encode config_entry as_config (λ c. refl) };
  role_json = record { decode-encode = decode_of_encode role_entry as_role (λ r. refl) };
  token_json = record { decode-encode = decode_of_encode token_entry as_token (λ t. refl) };
}
