-- ===== src/Framework.antt =====
-- What the path tables say to Vault's `framework` package, and what they ask of it: the patterns,
-- the fields and the operations of a path. The package itself, with `regexp`, is a parameter.
pub mod Laws
pub mod Plain
use vault_plugin_secrets_sal.Common.{
  String, Bool, true, false, Option, List, [], ◌∷◌, ◌==◌, if◌then◌else◌,
}
use vault_plugin_secrets_sal.Common.Int.{ℤ}

-- The patterns that the tables write, with literals that have no special characters: `exact "info"`
-- is "info", `named "roles/" "name" "/rotate"` is
-- "roles/" + framework.GenericNameRegex("name") + "/rotate", and `listing "roles"` is "roles/?$".
pub data Pattern : Type 0 where
  exact : String → Pattern
  named : String → String → String → Pattern
  listing : String → Pattern

pub data FieldType : Type 0 where
  type_string type_comma_string_slice type_duration_second type_bool : FieldType

-- The `Default` of a field: none, a number of seconds, or a flag.
pub data FieldDefault : Type 0 where
  no_default : FieldDefault
  default_seconds : ℤ → FieldDefault
  default_flag : Bool → FieldDefault

abbrev is_text : FieldType → Bool
is_text type_string = true
is_text _ = false

pub record FieldSchema : Type 0 where
  pub field_type : FieldType
  pub default : FieldDefault
  pub required : Bool

abbrev pub Schemas : Type 0
Schemas = List (String × FieldSchema)

-- The names and the texts of the groups of a pattern.
abbrev pub Captures : Type 0
Captures = List (String × String)

-- logical.Operation. The tables name the first five.
pub data Operation : Type 0 where
  create_operation update_operation read_operation delete_operation list_operation : Operation
  other_operation : String → Operation

-- Vault's `framework` package, with `regexp`: the data of a request, what a handler is given of it
-- for a path's fields, captures and body, how a handler gets a field, the names that
-- `GenericNameRegex` accepts, and what a pattern captures from a whole path.
pub record Framework : Type 1 where
  pub Body : Type 0
  pub FieldData : Type 0
  pub field_data : Schemas → Captures → Body → FieldData
  -- `data.Get(key).(string)`, and `data.GetOk(key)` with the assertion of a type.
  pub get_string : FieldData → String → String
  pub get_ok_string : FieldData → String → Option String
  pub get_ok_strings : FieldData → String → Option (List String)
  pub get_ok_seconds : FieldData → String → Option ℤ
  pub get_ok_bool : FieldData → String → Option Bool
  pub is_generic_name : String → Bool
  pub find : Pattern → String → Option Captures

-- The field is declared, as a text.
abbrev pub declares_text : String → Schemas → Bool
declares_text field [] = false
declares_text field ((name, schema) ∷ schemas) =
    let rest = declares_text field schemas in
    if name == field then is_text schema.field_type else rest
