-- ===== src/Backend/Sent.antt =====
-- The requests that reach the engine: those that the path tables let through, and those on its
-- leases. Their names have no further level of a path.
use vault_plugin_secrets_sal.Common.{
  String, ◌≡◌, ◌≢◌, inl, inr, true, Option, none, some, Option-cases,
}
use mathlib.Core.Path.{subst}
use vault_plugin_secrets_sal.Framework.{
  Framework, create_operation, update_operation, read_operation, delete_operation, list_operation,
  other_operation,
}
use vault_plugin_secrets_sal.Framework.Laws.{IsFramework}
use vault_plugin_secrets_sal.Platform.Laws.{is_flat}
use vault_plugin_secrets_sal.Lease.{InternalRole, LeaseSecret}
use vault_plugin_secrets_sal.Engine.{
  Request, config_write, config_read, config_delete, config_exists, role_write, role_read,
  role_delete, role_exists, creds_read, rotate,
}
use vault_plugin_secrets_sal.Backend.{Demand, operation, check_existence, new_paths, IsRouted}
use vault_plugin_secrets_sal.Backend.Tables.{secret_access_token, config_fields, role_fields}
use vault_plugin_secrets_sal.Backend.Segments.{segments}
use vault_plugin_secrets_sal.Backend.Routes.{
  Place, info_place, config_list_place, role_list_place, config_place, role_place, creds_place,
  rotate_place, place_of, request_at, route, on_read, on_list, on_update, on_record,
}
use vault_plugin_secrets_sal.Backend.Places.{LeadsTo, place_of-LeadsTo}
use vault_plugin_secrets_sal.Backend.Handled.{get_string-config, get_string-role}
use vault_plugin_secrets_sal.Backend.Routing.{IsRouted-iff}

-- A request that Vault may send: on a path, or on a lease of the secret type.
pub data IsSent (F : Framework) : Request → Type 0 where
  on_path :
      (path : String) (demand : Demand) (body : F.Body) (r : Request)
      → IsRouted F (new_paths F) path demand body r
      → IsSent F r
  on_revoke : (internal : InternalRole) → IsSent F (secret_access_token.revoke internal)
  on_renew : (secret : LeaseSecret) → IsSent F (secret_access_token.renew secret)

-- A name that is there and has no "/".
abbrev pub IsPlain : String → Type 0
IsPlain n = (is_flat n ≡ true) × (n ≢ "")

-- Every name that a path gives the request is plain.
abbrev pub HasPlainName : Request → Type 0
HasPlainName (config_write d) = IsPlain d.name
HasPlainName (config_read n) = IsPlain n
HasPlainName (config_delete n) = IsPlain n
HasPlainName (config_exists n) = IsPlain n
HasPlainName (role_write d) = IsPlain d.name
HasPlainName (role_read n) = IsPlain n
HasPlainName (role_delete n) = IsPlain n
HasPlainName (role_exists n) = IsPlain n
HasPlainName (creds_read n) = IsPlain n
HasPlainName (rotate n) = IsPlain n
HasPlainName _ = Unit

-- A property of the request that is made, if one is.
abbrev Every : (Request → Type 0) → Option Request → Type 0
Every P none = Unit
Every P (some r) = P r

module _ (P : Request → Type 0) where
  Every-on_read : {r : Request} → P r → (demand : Demand) → Every P (on_read r demand)
  Every-on_read h (operation create_operation) = tt
  Every-on_read h (operation update_operation) = tt
  Every-on_read h (operation read_operation) = h
  Every-on_read h (operation delete_operation) = tt
  Every-on_read h (operation list_operation) = tt
  Every-on_read h (operation (other_operation o)) = tt
  Every-on_read h check_existence = tt

  Every-on_list : {r : Request} → P r → (demand : Demand) → Every P (on_list r demand)
  Every-on_list h (operation create_operation) = tt
  Every-on_list h (operation update_operation) = tt
  Every-on_list h (operation read_operation) = tt
  Every-on_list h (operation delete_operation) = tt
  Every-on_list h (operation list_operation) = h
  Every-on_list h (operation (other_operation o)) = tt
  Every-on_list h check_existence = tt

  Every-on_update : {r : Request} → P r → (demand : Demand) → Every P (on_update r demand)
  Every-on_update h (operation create_operation) = tt
  Every-on_update h (operation update_operation) = h
  Every-on_update h (operation read_operation) = tt
  Every-on_update h (operation delete_operation) = tt
  Every-on_update h (operation list_operation) = tt
  Every-on_update h (operation (other_operation o)) = tt
  Every-on_update h check_existence = tt

  Every-on_record :
      {write read delete exists : Request}
      → P write
      → P read
      → P delete
      → P exists
      → (demand : Demand) → Every P (on_record write read delete exists demand)
  Every-on_record w r d e (operation create_operation) = w
  Every-on_record w r d e (operation update_operation) = w
  Every-on_record w r d e (operation read_operation) = r
  Every-on_record w r d e (operation delete_operation) = d
  Every-on_record w r d e (operation list_operation) = tt
  Every-on_record w r d e (operation (other_operation o)) = tt
  Every-on_record w r d e check_existence = e

module _ {F : Framework} (K : IsFramework F) where
  name-IsPlain : (n : String) → F.is_generic_name n ≡ true → IsPlain n
  name-IsPlain n g = (K.name-is_flat n g, λ e. K.name-ne-nil (rw e at g))

  request_at-HasPlainName :
      (place : Place) (path : String)
      → LeadsTo F place path
      → (demand : Demand) (body : F.Body) → Every HasPlainName (request_at F place demand body)
  unfolding config_fields role_fields
  request_at-HasPlainName info_place path at demand body = Every-on_read HasPlainName tt demand
  request_at-HasPlainName config_list_place path at demand body =
      Every-on_list HasPlainName tt demand
  request_at-HasPlainName role_list_place path at demand body = Every-on_list HasPlainName tt demand
  request_at-HasPlainName (config_place n) path (g, _) demand body =
      let plain = name-IsPlain n g in
      Every-on_record HasPlainName (rw (get_string-config K n body) plain) plain plain plain demand
  request_at-HasPlainName (role_place n) path (g, _) demand body =
      let plain = name-IsPlain n g in
      Every-on_record HasPlainName (rw (get_string-role K n body) plain) plain plain plain demand
  request_at-HasPlainName (creds_place n) path (inl (g, _)) demand body =
      Every-on_read HasPlainName (name-IsPlain n g) demand
  request_at-HasPlainName (creds_place n) path (inr (g, _)) demand body =
      Every-on_read HasPlainName (name-IsPlain n g) demand
  request_at-HasPlainName (rotate_place n) path (g, _) demand body =
      Every-on_update HasPlainName (name-IsPlain n g) demand

  route-HasPlainName :
      (path : String) (demand : Demand) (body : F.Body) (r : Request)
      → route F path demand body ≡ some r
      → HasPlainName r
  unfolding route
  route-HasPlainName path demand body r h = elim (Option-cases (place_of F (segments path))) [
    | inl e ↦ let no = rw e at h in cc
    | inr (place, e) ↦
        let made =
          request_at-HasPlainName place path (place_of-LeadsTo F path place e) demand body in
        subst (Every HasPlainName) (rw e at h) made
  ]

  -- Whatever the path and the data of a request, each name that its handler is given is not empty
  -- and has no "/".
  pub IsSent-HasPlainName : (r : Request) → IsSent F r → HasPlainName r
  IsSent-HasPlainName _ (on_path path demand body r h) =
      route-HasPlainName path demand body r ((IsRouted-iff K path demand body r).0 h)
  IsSent-HasPlainName _ (on_revoke internal) = tt
  IsSent-HasPlainName _ (on_renew secret) = tt
