-- ===== src/Backend/Routing.antt =====
-- The path tables route as documented: which path serves a request is never ambiguous.
use vault_plugin_secrets_sal.Common.{
  String, ◌<>◌, ◌≡◌, ◌↔◌, refl, sym, ◌⊎◌, inl, inr, true, false, Bool-cases, ◌==◌, some, [], ◌∷◌,
  Option-cases,
}
use text.Mathlib.TextLemmas.{append-nil, append_assoc}
use vault_plugin_secrets_sal.Framework.{Framework, named, listing, Captures}
use vault_plugin_secrets_sal.Framework.Laws.{IsFramework}
use vault_plugin_secrets_sal.Platform.Laws.{is_flat}
use vault_plugin_secrets_sal.Engine.{Request}
use vault_plugin_secrets_sal.Backend.{Demand, new_paths, handled_by, served_by, IsRouted}
use vault_plugin_secrets_sal.Backend.Tables.{
  FrameworkPath, info_path, config_path, config_list_path, role_path, role_list_path, creds_path,
  token_path, rotate_path,
}
use vault_plugin_secrets_sal.Backend.Segments.{segments, segments_of_flat, segments-slash}
use vault_plugin_secrets_sal.Backend.Routes.{
  Place, info_place, config_list_place, role_list_place, config_place, role_place, creds_place,
  rotate_place, place_of, named_place, list_place, request_at, route,
}
use vault_plugin_secrets_sal.Backend.Places.{LeadsTo, place_of-LeadsTo}
use vault_plugin_secrets_sal.Backend.Handled.{
  handled_by-info, handled_by-config, handled_by-config_list, handled_by-role, handled_by-role_list,
  handled_by-creds, handled_by-token, handled_by-rotate,
}

module _ {F : Framework} (K : IsFramework F) (path : String) (demand : Demand) (body : F.Body)
    (r : Request) where
  -- The place that the segments lead to decides the route.
  route_at :
      (place : Place)
      → place_of F (segments path) ≡ some place
      → request_at F place demand body ≡ some r
      → route F path demand body ≡ some r
  unfolding route
  route_at place found h = rw found h

  segments_of_named :
      (first n : String)
      → is_flat first ≡ true
      → F.is_generic_name n ≡ true
      → path ≡ ((first <> "/") <> n) <> ""
      → segments path ≡ first ∷ n ∷ []
  segments_of_named first n flat g e =
      rw
        (
          e,
          append-nil ((first <> "/") <> n),
          segments-slash first n flat,
          segments_of_flat n (K.name-is_flat n g),
        )
        refl

  -- A path of the table that ends in a name.
  module _ (p : FrameworkPath F) (first : String) (place : String → Place)
      (pattern : p.pattern ≡ named (first <> "/") "name" "") (flat : is_flat first ≡ true)
      (leads : (n : String) → named_place first n ≡ some (place n))
      (handled : (n : String)
        → handled_by F p (("name", n) ∷ []) demand body ≡ request_at F (place n) demand body) where
    named-route : served_by F p path demand body ≡ some r → route F path demand body ≡ some r
    unfolding served_by
    named-route h = elim (Option-cases (F.find p.pattern path)) [
      | inl e ↦ let no = rw e at h in cc
      | inr (c, e) ↦
          let (n, g, at, captured) = K.find-named (first <> "/") "name" "" path (rw pattern at e) in
          let words = segments_of_named first n flat g at in
          route_at (place n) (rw (words, g) (leads n)) (rw (e, captured, handled n) at h)
    ]

    route-named :
        (n : String)
        → (F.is_generic_name n ≡ true) × (path ≡ (first <> "/") <> n)
        → request_at F (place n) demand body ≡ some r
        → served_by F p path demand body ≡ some r
    unfolding served_by handled_by
    route-named n (g, at) h =
        let found = K.named-find (first <> "/") "name" "" n g in
        rw (pattern, at, sym (append-nil ((first <> "/") <> n)), found, handled n) h

  -- A path of the table that captures nothing.
  module _ (p : FrameworkPath F) (place : Place)
      (handled : handled_by F p [] demand body ≡ request_at F place demand body) where
    unnamed-route :
        ((c : Captures)
          → F.find p.pattern path ≡ some c
          → (place_of F (segments path) ≡ some place) × (c ≡ []))
        → served_by F p path demand body ≡ some r
        → route F path demand body ≡ some r
    unfolding served_by
    unnamed-route leads h = elim (Option-cases (F.find p.pattern path)) [
      | inl e ↦ let no = rw e at h in cc
      | inr (c, e) ↦
          let (found, captured) = leads c e in route_at place found (rw (e, captured, handled) at h)
    ]

    route-unnamed :
        F.find p.pattern path ≡ some []
        → request_at F place demand body ≡ some r
        → served_by F p path demand body ≡ some r
    unfolding served_by
    route-unnamed found h = rw (found, handled) h

  list-leads :
      (first : String) (place : Place) {c : Captures}
      → F.is_generic_name "" ≡ false
      → is_flat first ≡ true
      → (first == "info") ≡ false
      → list_place first ≡ some place
      → F.find (listing first) path ≡ some c
      → (place_of F (segments path) ≡ some place) × (c ≡ [])
  list-leads first place no_name flat other leads e =
      let (at, captured) = K.find-listing first path e in
      let found : place_of F (segments path) ≡ some place = elim at [
        | inl at ↦ rw (at, segments_of_flat first flat, other) leads
        | inr at ↦
            rw
              (
                at,
                sym (append-nil (first <> "/")),
                segments-slash first "" flat,
                segments_of_flat "" refl,
                no_name,
              )
              leads
      ] in
      (found, captured)

  rotate_text :
      (n : String) → ("roles/" <> n) <> "/rotate" ≡ ("roles" <> "/") <> ((n <> "/") <> "rotate")
  rotate_text n = rw (append_assoc n "/" "rotate", append_assoc "roles/" n "/rotate") refl

  rotate-route :
      served_by F (rotate_path F) path demand body ≡ some r → route F path demand body ≡ some r
  unfolding served_by segments
  rotate-route h = elim (Option-cases (F.find (named "roles/" "name" "/rotate") path)) [
    | inl e ↦ let no = rw e at h in cc
    | inr (c, e) ↦
        let (n, g, at, captured) = K.find-named "roles/" "name" "/rotate" path e in
        let words : segments path ≡ "roles" ∷ n ∷ "rotate" ∷ [] =
          rw
            (
              at,
              rotate_text n,
              segments-slash "roles" ((n <> "/") <> "rotate") refl,
              segments-slash n "rotate" (K.name-is_flat n g),
            )
            refl in
        route_at (rotate_place n) (rw (words, g) refl)
          (rw (e, captured, handled_by-rotate K n body demand) at h)
  ]

  no_name : F.is_generic_name "" ≡ false
  no_name = elim (Bool-cases (F.is_generic_name "")) [
    | inl t ↦ absurd (K.name-ne-nil t)
    | inr f ↦ f
  ]

  -- Each request that the tables let through is the documented one.
  IsRouted-route : IsRouted F (new_paths F) path demand body r → route F path demand body ≡ some r
  unfolding IsRouted new_paths segments
  IsRouted-route (inl h) =
      unnamed-route (info_path F) info_place (handled_by-info F body demand)
        (λ c e. let (at, captured) = K.find-exact "info" path e in (rw at refl, captured)) h
  IsRouted-route (inr (inl h)) =
      named-route (config_path F) "config" config_place refl refl (λ n. refl)
        (λ n. handled_by-config K n body demand) h
  IsRouted-route (inr (inr (inl h))) =
      unnamed-route (config_list_path F) config_list_place (handled_by-config_list F body demand)
        (λ c e. list-leads "config" config_list_place no_name refl refl refl e) h
  IsRouted-route (inr (inr (inr (inl h)))) =
      named-route (role_path F) "roles" role_place refl refl (λ n. refl)
        (λ n. handled_by-role K n body demand) h
  IsRouted-route (inr (inr (inr (inr (inl h))))) =
      unnamed-route (role_list_path F) role_list_place (handled_by-role_list F body demand)
        (λ c e. list-leads "roles" role_list_place no_name refl refl refl e) h
  IsRouted-route (inr (inr (inr (inr (inr (inl h)))))) =
      named-route (creds_path F) "creds" creds_place refl refl (λ n. refl)
        (λ n. handled_by-creds K n body demand) h
  IsRouted-route (inr (inr (inr (inr (inr (inr (inl h))))))) =
      named-route (token_path F) "token" creds_place refl refl (λ n. refl)
        (λ n. handled_by-token K n body demand) h
  IsRouted-route (inr (inr (inr (inr (inr (inr (inr (inl h)))))))) = rotate-route h
  IsRouted-route (inr (inr (inr (inr (inr (inr (inr (inr h)))))))) = absurd h

  rotated :
      (n : String)
      → F.is_generic_name n ≡ true
      → path ≡ ("roles/" <> n) <> "/rotate"
      → request_at F (rotate_place n) demand body ≡ some r
      → served_by F (rotate_path F) path demand body ≡ some r
  unfolding served_by
  rotated n g at h =
      rw (at, K.named-find "roles/" "name" "/rotate" n g, handled_by-rotate K n body demand) h

  listed :
      (p : FrameworkPath F) (first : String) (place : Place)
      → p.pattern ≡ listing first
      → handled_by F p [] demand body ≡ request_at F place demand body
      → (path ≡ first) ⊎ (path ≡ first <> "/")
      → request_at F place demand body ≡ some r
      → served_by F p path demand body ≡ some r
  listed p first place pattern handled (inl at) h =
      route-unnamed p place handled (rw (pattern, at) (K.listing-find first)) h
  listed p first place pattern handled (inr at) h =
      route-unnamed p place handled (rw (pattern, at) (K.listing-find_slash first)) h

  -- A path that leads to a place is served by one of the tables' paths.
  LeadsTo-IsRouted :
      (place : Place)
      → LeadsTo F place path
      → request_at F place demand body ≡ some r
      → IsRouted F (new_paths F) path demand body r
  unfolding IsRouted new_paths
  LeadsTo-IsRouted info_place at h = inl (
      route-unnamed (info_path F) info_place (handled_by-info F body demand)
        (rw at (K.exact-find "info")) h)
  LeadsTo-IsRouted (config_place n) at h = inr (
      inl (
        route-named (config_path F) "config" config_place refl refl (λ n. refl)
          (λ n. handled_by-config K n body demand) n at h))
  LeadsTo-IsRouted config_list_place at h = inr (
      inr (
        inl (
          listed (config_list_path F) "config" config_list_place refl
            (handled_by-config_list F body demand) at h)))
  LeadsTo-IsRouted (role_place n) at h = inr (
      inr (
        inr (
          inl (
            route-named (role_path F) "roles" role_place refl refl (λ n. refl)
              (λ n. handled_by-role K n body demand) n at h))))
  LeadsTo-IsRouted role_list_place at h = inr (
      inr (
        inr (
          inr (
            inl (
              listed (role_list_path F) "roles" role_list_place refl
                (handled_by-role_list F body demand) at h)))))
  LeadsTo-IsRouted (creds_place n) (inl at) h = inr (
      inr (
        inr (
          inr (
            inr (
              inl (
                route-named (creds_path F) "creds" creds_place refl refl (λ n. refl)
                  (λ n. handled_by-creds K n body demand) n at h))))))
  LeadsTo-IsRouted (creds_place n) (inr at) h = inr (
      inr (
        inr (
          inr (
            inr (
              inr (
                inl (
                  route-named (token_path F) "token" creds_place refl refl (λ n. refl)
                    (λ n. handled_by-token K n body demand) n at h)))))))
  LeadsTo-IsRouted (rotate_place n) (g, at) h =
      inr (inr (inr (inr (inr (inr (inr (inl (rotated n g at h))))))))

  -- The path tables let a request through exactly if the documented routes have it: there is one
  -- request at most for a path, an operation and the data, and the tables' order is of no account.
  pub IsRouted-iff :
      IsRouted F (new_paths F) path demand body r ↔ (route F path demand body ≡ some r)
  unfolding route
  IsRouted-iff = (
    IsRouted-route,
    λ h. elim (Option-cases (place_of F (segments path))) [
      | inl e ↦ let no = rw e at h in cc
      | inr (place, e) ↦ LeadsTo-IsRouted place (place_of-LeadsTo F path place e) (rw e at h)
    ],
  )
