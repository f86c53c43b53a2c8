-- ===== src/Backend/Serving.antt =====
-- What the names of the paths mean for what is stored, and for the purge of a configuration write.
use vault_plugin_secrets_sal.Common.{String, ◌<>◌, ◌≡◌, refl, none, some, List, [], ◌∷◌}
use mathlib.Core.Path.{subst}
use vault_plugin_secrets_sal.Common.Text.{role-ne-cache, role-ne-config}
use vault_plugin_secrets_sal.Errors.{ok, empty}
use vault_plugin_secrets_sal.Config.{config_storage_prefix}
use vault_plugin_secrets_sal.Role.{Role, roles_storage_prefix}
use vault_plugin_secrets_sal.Token.{cache_storage_prefix}
use vault_plugin_secrets_sal.Platform.{Platform}
use vault_plugin_secrets_sal.Platform.Laws.{IsLawful}
use vault_plugin_secrets_sal.Action.{State, call}
use vault_plugin_secrets_sal.Action.Keeps.{Keeps}
use vault_plugin_secrets_sal.Storage.Frames.{Keeps-put}
use vault_plugin_secrets_sal.Storage.Stored.{entry, stored_role}
use vault_plugin_secrets_sal.Storage.AllStored.{
  AllStored, AllStored-IsStable, AllStored-put, AllStored-delete,
}
use vault_plugin_secrets_sal.Config.Handlers.{ConfigFields, path_config_write}
use vault_plugin_secrets_sal.Config.Writes.{path_config_write-purges}
use vault_plugin_secrets_sal.Framework.{Framework}
use vault_plugin_secrets_sal.Framework.Laws.{IsFramework}
use vault_plugin_secrets_sal.Engine.{Request, serve, serve_all}
use vault_plugin_secrets_sal.Engine.Invariant.{Keeps-serve}
use vault_plugin_secrets_sal.Backend.Sent.{IsSent, IsPlain, HasPlainName, IsSent-HasPlainName}

-- Each of the requests may be sent.
abbrev pub AllSent : (F : Framework) → List Request → Type 0
AllSent F [] = Unit
AllSent F (r ∷ requests) = IsSent F r × AllSent F requests

module _ {V : Platform} (L : IsLawful V) where
  -- Every stored role is under a plain name.
  abbrev pub RolesPlain : State V → Type 0
  RolesPlain = AllStored L V.role_json roles_storage_prefix (λ name _. IsPlain name)

  module _ {F : Framework} (K : IsFramework F)
      (waited : (k : String) → Keeps RolesPlain (call V (V.lock k))) where
    Keeps-RolesPlain : (r : Request) → HasPlainName r → Keeps RolesPlain (serve V r)
    Keeps-RolesPlain r plain =
        let stable =
          AllStored-IsStable L V.role_json roles_storage_prefix (λ name _. IsPlain name) in
        Keeps-serve L (stable _ λ n (m, e). role-ne-cache n m e) waited
          (λ name cfg e _ _.
            Keeps-put L
              (stable (λ j. j ≡ config_storage_prefix <> name) λ n p. role-ne-config n name p) _ e
              refl)
          IsPlain
          (λ name role e named _ c. AllStored-put L V.role_json _ _ L.role_json name role e c named)
          (AllStored-delete L V.role_json _ _) r (λ d e. subst HasPlainName e plain)

    -- Whatever requests Vault sends, each role that is stored afterwards has a plain name, if that
    -- held before.
    pub serve_all-RolesPlain :
        (requests : List Request) (s : State V)
        → AllSent F requests
        → RolesPlain s
        → RolesPlain (serve_all V requests s)
    unfolding serve_all
    serve_all-RolesPlain [] s sent h = h
    serve_all-RolesPlain (r ∷ requests) s (first, sent) h =
        serve_all-RolesPlain requests (serve V r s).1 sent
          ((Keeps-RolesPlain r (IsSent-HasPlainName K r first)).at s h)

    -- After a write of a configuration that succeeds, no role that is bound to it has a cached
    -- token, if all requests came through the path tables, and every role had a plain name before
    -- them.
    pub serve_all-purged :
        (requests : List Request) (s : State V) (d : ConfigFields)
        → AllSent F requests
        → RolesPlain s
        → (path_config_write V d (serve_all V requests s)).0 ≡ ok empty
        → (name : String) (r : Role) → stored_role L (serve_all V requests s) name ≡ ok (some r)
        → r.config ≡ d.name
        → entry L (path_config_write V d (serve_all V requests s)).1 (cache_storage_prefix <> name)
          ≡ none
    serve_all-purged requests s d sent plain accepted name r held bound =
        let t = serve_all V requests s in
        let named = (serve_all-RolesPlain requests s sent plain).each name r held in
        path_config_write-purges L d t accepted name r named.0 held bound
