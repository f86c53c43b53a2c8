-- ===== src/Errors.antt =====
-- Go's `error` values as the engine builds them, results of fallible code, and handler replies.
use vault_plugin_secrets_sal.Common.{ℕ, String, ◌≡◌, refl, ◌⊎◌, inl, inr, List}
use vault_plugin_secrets_sal.Common.Int.{ℤ}

-- client.go `salesforceError`: an OAuth error of the token endpoint.
pub record SalesforceError : Type 0 where
  pub status_code : ℕ
  pub code : String
  pub description : String

-- An argument of a format: a text, a number, or a duration.
pub data Arg : Type 0 where
  text : String → Arg
  number : ℕ → Arg
  duration : ℤ → Arg

-- An error keeps its format and arguments, so that two messages are equal only if they say the
-- same. `wrapped` is a format whose last argument is another error (`%w`, or `%s` of an error).
pub data Error : Type 0 where
  salesforce_error : SalesforceError → Error
  external : String → Error
  errorf : String → List Arg → Error
  wrapped : String → List Arg → Error → Error

-- A Go result `(value, error)`.
pub data Outcome {ℓ} (A : Type ℓ) : Type ℓ where
  ok : A → Outcome A
  fail : Error → Outcome A

-- What a handler gives beside its Go error: `nil`, `logical.ErrorResponse(…)`, or a response.
pub data Reply (A : Type 0) : Type 0 where
  empty : Reply A
  error_response : Error → Reply A
  respond : A → Reply A

pub Outcome-cases {ℓ} :
    {A : Type ℓ} (r : Outcome A) → ((a : A) × (r ≡ ok a)) ⊎ ((e : Error) × (r ≡ fail e))
Outcome-cases (ok a) = inl (a, refl)
Outcome-cases (fail e) = inr (e, refl)

-- The test `err != nil`.
abbrev pub on_error {ℓ κ} : {A : Type ℓ} {B : Type κ} → Outcome A → (Error → B) → (A → B) → B
on_error (fail e) f g = f e
on_error (ok a) f g = g a
