-- ===== src/Storage/AllStored.antt =====
-- Properties of every record of one kind that the storage holds.
use vault_plugin_secrets_sal.Common.{String, ◌<>◌, ◌≡◌, refl, sym, ◌∙◌, inl, inr, some}
use mathlib.Core.Path.{ap, subst}
use text.Mathlib.TextLemmas.{append_inj}
use vault_plugin_secrets_sal.Errors.{ok}
use vault_plugin_secrets_sal.Platform.{Platform, Codec}
use vault_plugin_secrets_sal.Platform.Laws.{IsLawful, RoundTrips}
use vault_plugin_secrets_sal.Action.{State, try_call}
use vault_plugin_secrets_sal.Action.Keeps.{Keeps}
use vault_plugin_secrets_sal.Storage.{decoded}
use vault_plugin_secrets_sal.Storage.Stored.{entry}
use vault_plugin_secrets_sal.Storage.Reads.{decoded_encode}
use vault_plugin_secrets_sal.Storage.Frames.{IsStable}

module _ {V : Platform} (L : IsLawful V) {A : Type 0} (codec : Codec V.Entry A) (prefix : String)
    (Q : String → A → Type 0) where
  pub record AllStored (s : State V) : Type 0 where
    pub each :
        (name : String) (a : A)
        → decoded codec (entry L s (prefix <> name)) ≡ ok (some a)
        → Q name a

  pub AllStored-IsStable :
      (W : String → Type 0) → ((name : String) → ¬ W (prefix <> name)) → IsStable L W AllStored
  AllStored-IsStable W free = record {
    transfer = λ s t agree h. record {
      each = λ name a e. h.each name a (rw (agree (prefix <> name) (free name)) at e);
    };
  }

  -- An entry whose record has the property may be written.
  pub AllStored-put :
      RoundTrips codec
      → (name : String) (a : A) (e : V.Entry) → codec.encode a ≡ ok e
      → Q name a
      → Keeps AllStored (try_call V (V.storage_put (prefix <> name) e))
  unfolding try_call
  AllStored-put trip name a e encoded qa = record {
    at = λ s h. record {
      each = λ n b r. elim (L.storage.view-put (prefix <> name) e s.world (prefix <> n)) [
        | inl same ↦ h.each n b (rw same at r)
        | inr (at, written) ↦
            let same : a ≡ b =
              cc (r, ◌∙◌ (ap (decoded codec) written) (decoded_encode codec trip a encoded)) in
            subst (Q n) same (subst (λ x. Q x a) (sym (append_inj at refl).1) qa)
      ];
    };
  }

  -- Any entry may be deleted.
  pub AllStored-delete : (k : String) → Keeps AllStored (try_call V (V.storage_delete k))
  unfolding try_call decoded
  AllStored-delete k = record {
    at = λ s h. record {
      each = λ n b r. elim (L.storage.view-delete k s.world (prefix <> n)) [
        | inl same ↦ h.each n b (rw same at r)
        | inr (_, gone) ↦ cc (r, gone)
      ];
    };
  }
