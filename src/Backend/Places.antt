-- ===== src/Backend/Places.antt =====
-- Which paths lead to a place of the documented routes.
use vault_plugin_secrets_sal.Common.{
  String, ◌<>◌, ◌≡◌, refl, ◌⊎◌, inl, inr, true, Option, none, some, List, [], ◌∷◌, Bool-cases,
  text-cases,
}
use text.Mathlib.TextLemmas.{append-nil, append_assoc}
use vault_plugin_secrets_sal.Framework.{Framework}
use vault_plugin_secrets_sal.Backend.Segments.{segments, join, join-segments}
use vault_plugin_secrets_sal.Backend.Routes.{
  Place, info_place, config_list_place, role_list_place, config_place, role_place, creds_place,
  rotate_place, place_of, named_place, list_place,
}

module _ (F : Framework) where
  abbrev Named : String → String → String → Type 0
  Named first n path = (F.is_generic_name n ≡ true) × (path ≡ (first <> "/") <> n)

  abbrev pub LeadsTo : Place → String → Type 0
  LeadsTo info_place path = path ≡ "info"
  LeadsTo config_list_place path = (path ≡ "config") ⊎ (path ≡ "config/")
  LeadsTo role_list_place path = (path ≡ "roles") ⊎ (path ≡ "roles/")
  LeadsTo (config_place n) path = Named "config" n path
  LeadsTo (role_place n) path = Named "roles" n path
  LeadsTo (creds_place n) path = Named "creds" n path ⊎ Named "token" n path
  LeadsTo (rotate_place n) path =
      (F.is_generic_name n ≡ true) × (path ≡ ("roles/" <> n) <> "/rotate")

  -- What the documented route finds is where the path leads.
  abbrev Leads : Option Place → String → Type 0
  Leads none path = Unit
  Leads (some place) path = LeadsTo place path

  named_place-Leads :
      (first n : String)
      → F.is_generic_name n ≡ true
      → Leads (named_place first n) ((first <> "/") <> n)
  named_place-Leads first n g = elim (text-cases first "config") [
    | inl (t, e) ↦ rw t (g, rw e refl)
    | inr (f, _) ↦ rw f (elim (text-cases first "roles") [
      | inl (t, e) ↦ rw t (g, rw e refl)
      | inr (f2, _) ↦ rw f2 (elim (text-cases first "creds") [
        | inl (t, e) ↦ rw t (inl (g, rw e refl))
        | inr (f3, _) ↦ rw f3 (elim (text-cases first "token") [
          | inl (t, e) ↦ rw t (inr (g, rw e refl))
          | inr (f4, _) ↦ rw f4 tt
        ])
      ])
    ])
  ]

  list_place-Leads :
      (first path : String) → (path ≡ first) ⊎ (path ≡ first <> "/") → Leads (list_place first) path
  list_place-Leads first path h = elim (text-cases first "config") [
    | inl (t, e) ↦ rw t (rw e at h)
    | inr (f, _) ↦
        rw f (elim (text-cases first "roles") [
          | inl (t, e) ↦ rw t (rw e at h)
          | inr (f2, _) ↦ rw f2 tt
        ])
  ]

  rotate_text :
      (n : String) → ("roles" <> "/") <> ((n <> "/") <> "rotate") ≡ ("roles/" <> n) <> "/rotate"
  rotate_text n = rw (append_assoc n "/" "rotate", append_assoc "roles/" n "/rotate") refl

  place_of-Leads : (words : List String) → Leads (place_of F words) (join words)
  unfolding join
  place_of-Leads [] = tt
  place_of-Leads (first ∷ []) = elim (text-cases first "info") [
    | inl (t, e) ↦ rw t e
    | inr (f, _) ↦ rw f (list_place-Leads first first (inl refl))
  ]
  place_of-Leads (first ∷ n ∷ []) = elim (Bool-cases (F.is_generic_name n)) [
    | inl g ↦ rw g (named_place-Leads first n g)
    | inr f ↦ rw f (elim (text-cases n "") [
      | inl (t, e) ↦ rw t (list_place-Leads first _ (inr (rw (e, append-nil (first <> "/")) refl)))
      | inr (f2, _) ↦ rw f2 tt
    ])
  ]
  place_of-Leads (first ∷ n ∷ last ∷ []) = elim (Bool-cases (F.is_generic_name n)) [
    | inr f ↦ rw f tt
    | inl g ↦ rw g (elim (text-cases first "roles") [
      | inr (f, _) ↦ rw f tt
      | inl (t, e) ↦ rw t (elim (text-cases last "rotate") [
        | inr (f, _) ↦ rw f tt
        | inl (u, d) ↦ rw u (g, rw (e, d) (rotate_text n))
      ])
    ])
  ]
  place_of-Leads (first ∷ n ∷ last ∷ more ∷ words) = tt

  pub place_of-LeadsTo :
      (path : String) (place : Place) → place_of F (segments path) ≡ some place → LeadsTo place path
  place_of-LeadsTo path place h =
      let found : Leads (place_of F (segments path)) (join (segments path)) =
        place_of-Leads (segments path) in
      rw (h, join-segments path) at found
