-- ===== src/Backend/Routes.antt =====
-- The routes of the engine as its documentation lists them, by the segments of a path: what the
-- path tables are held against.
use vault_plugin_secrets_sal.Common.{
  String, Option, none, some, List, [], ◌∷◌, ◌==◌, if◌then◌else◌, on_nil,
}
use vault_plugin_secrets_sal.Framework.{
  Framework, Schemas, create_operation, update_operation, read_operation, delete_operation,
  list_operation,
}
use vault_plugin_secrets_sal.Engine.{
  Request, info_read, config_write, config_read, config_delete, config_exists, config_list,
  role_write, role_read, role_delete, role_exists, role_list, creds_read, rotate,
}
use vault_plugin_secrets_sal.Backend.{Demand, operation, check_existence}
use vault_plugin_secrets_sal.Backend.Tables.{config_schema, role_schema, config_fields, role_fields}
use vault_plugin_secrets_sal.Backend.Segments.{segments}

-- What a path leads to.
pub data Place : Type 0 where
  info_place config_list_place role_list_place : Place
  config_place role_place creds_place rotate_place : String → Place

abbrev pub named_place : String → String → Option Place
named_place first name =
    if first == "config"
    then some (config_place name)
    else if first == "roles"
    then some (role_place name)
    else if first == "creds"
    then some (creds_place name)
    else if first == "token"
    then some (creds_place name)
    else none

abbrev pub list_place : String → Option Place
list_place first =
    if first == "config"
    then some config_list_place
    else if first == "roles"
    then some role_list_place
    else none

-- A place that is only read, only listed, or only updated, and one that holds a record.
abbrev pub on_read : Request → Demand → Option Request
on_read r (operation read_operation) = some r
on_read r _ = none

abbrev pub on_list : Request → Demand → Option Request
on_list r (operation list_operation) = some r
on_list r _ = none

abbrev pub on_update : Request → Demand → Option Request
on_update r (operation update_operation) = some r
on_update r _ = none

abbrev pub on_record : Request → Request → Request → Request → Demand → Option Request
on_record write read delete exists (operation create_operation) = some write
on_record write read delete exists (operation update_operation) = some write
on_record write read delete exists (operation read_operation) = some read
on_record write read delete exists (operation delete_operation) = some delete
on_record write read delete exists check_existence = some exists
on_record write read delete exists _ = none

module _ (F : Framework) where
  abbrev pub place_of : List String → Option Place
  place_of [] = none
  place_of (first ∷ []) = if first == "info" then some info_place else list_place first
  place_of (first ∷ name ∷ []) =
      if F.is_generic_name name
      then named_place first name
      else if name == ""
      then list_place first
      else none
  place_of (first ∷ name ∷ last ∷ []) =
      if F.is_generic_name name
      then (if first == "roles"
          then (if last == "rotate" then some (rotate_place name) else none)
          else none)
      else none
  place_of (first ∷ name ∷ last ∷ more ∷ words) = none

  -- The data of a request whose path ends in the name.
  abbrev pub named_data : Schemas → String → F.Body → F.FieldData
  named_data schema name = F.field_data schema (("name", name) ∷ [])

  abbrev pub request_at : Place → Demand → F.Body → Option Request
  request_at info_place demand body = on_read info_read demand
  request_at config_list_place demand body = on_list config_list demand
  request_at role_list_place demand body = on_list role_list demand
  request_at (config_place n) demand body =
      on_record (config_write (config_fields F (named_data config_schema n body))) (config_read n)
        (config_delete n) (config_exists n) demand
  request_at (role_place n) demand body =
      on_record (role_write (role_fields F (named_data role_schema n body))) (role_read n)
        (role_delete n) (role_exists n) demand
  request_at (creds_place n) demand body = on_read (creds_read n) demand
  request_at (rotate_place n) demand body = on_update (rotate n) demand

  -- The request that a path, a demand and the data make.
  unfoldable pub route : String → Demand → F.Body → Option Request
  route path demand body =
      on_nil (place_of (segments path)) none (λ place. request_at place demand body)
