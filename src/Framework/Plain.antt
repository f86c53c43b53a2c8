-- ===== src/Framework/Plain.antt =====
-- A framework that can be run: the one of the tests.
pub mod Lawful
use vault_plugin_secrets_sal.Common.{
  String, ◌<>◌, Bool, not, ◌&&◌, Option, none, some, List, [], ◌∷◌, ◌==◌, ◌++◌, if◌then◌else◌,
  on_nil,
}
use vault_plugin_secrets_sal.Common.Int.{ℤ}
use vault_plugin_secrets_sal.Common.Text.{strip_prefix, strip_suffix}
use vault_plugin_secrets_sal.Platform.Laws.{is_flat}
use vault_plugin_secrets_sal.Framework.{
  Framework, Pattern, exact, named, listing, Captures, Schemas,
}

pub data Raw : Type 0 where
  text : String → Raw
  texts : List String → Raw
  number : ℤ → Raw
  flag : Bool → Raw

abbrev lookup {ℓ} : {A : Type ℓ} → String → List (String × A) → Option A
lookup key [] = none
lookup key ((k, a) ∷ entries) = let rest = lookup key entries in if k == key then some a else rest

abbrev captured_text : Captures → List (String × Raw)
captured_text [] = []
captured_text ((k, s) ∷ captures) = (k, text s) ∷ captured_text captures

-- What a path declares, and its captures before the values of the body.
pub record PlainData : Type 0 where
  pub schema : Schemas
  pub values : List (String × Raw)

-- The value of a field that is declared.
abbrev value : PlainData → String → Option Raw
value d key = on_nil (lookup key d.schema) none (λ _. lookup key d.values)

abbrev as_string : Option Raw → Option String
as_string (some (text s)) = some s
as_string _ = none

abbrev as_strings : Option Raw → Option (List String)
as_strings (some (texts l)) = some l
as_strings _ = none

abbrev as_seconds : Option Raw → Option ℤ
as_seconds (some (number n)) = some n
as_seconds _ = none

abbrev as_bool : Option Raw → Option Bool
as_bool (some (flag b)) = some b
as_bool _ = none

abbrev is_name : String → Bool
is_name n = is_flat n && not (n == "")

abbrev captured : String → String → Option Captures
captured field n = if is_name n then some ((field, n) ∷ []) else none

unfoldable find : Pattern → String → Option Captures
find (exact t) p = if p == t then some [] else none
find (listing t) p = if p == t then some [] else if p == t <> "/" then some [] else none
find (named before field after) p =
    on_nil (strip_prefix before p) none
      (λ rest. on_nil (strip_suffix after rest) none (captured field))

unfoldable pub plain : Framework
unfolding find
plain = record {
  Body = List (String × Raw);
  FieldData = PlainData;
  field_data =
      λ schema captures body. record { schema = schema; values = captured_text captures ++ body };
  get_string = λ d key. on_nil (as_string (value d key)) "" (λ s. s);
  get_ok_string = λ d key. as_string (value d key);
  get_ok_strings = λ d key. as_strings (value d key);
  get_ok_seconds = λ d key. as_seconds (value d key);
  get_ok_bool = λ d key. as_bool (value d key);
  is_generic_name = is_name;
  find = find;
}

unfoldable pub body_of : List (String × Raw) → plain.Body
unfolding plain
body_of values = values
