-- ===== src/Backend.antt =====
-- backend.go: the backend that Vault mounts, and the requests that its tables let through.
pub mod Tables
pub mod Segments
pub mod Routes
pub mod Handled
pub mod Places
pub mod Routing
pub mod Sent
pub mod Serving
use vault_plugin_secrets_sal.Common.{
  String, ◌≡◌, ◌⊎◌, Option, none, some, List, [], ◌∷◌, ◌++◌, Bool, true, false, ◌==◌, on_nil,
  if◌then◌else◌,
}
use vault_plugin_secrets_sal.Errors.{Outcome, ok, fail}
use vault_plugin_secrets_sal.Framework.{
  Framework, Captures, Operation, create_operation, update_operation, read_operation,
  delete_operation, list_operation, other_operation,
}
use vault_plugin_secrets_sal.Engine.{Request}
use Tables.*

-- A request on a path asks for an operation, or whether the record is there: the latter comes
-- before a write, to tell a create from an update.
pub data Demand : Type 0 where
  operation : Operation → Demand
  check_existence : Demand

-- `framework.Backend`, as `newBackend` fills it in, with the pool of locks of the engine.
pub record Backend (F : Framework) (Locks : Type 0) : Type 0 where
  pub help : String
  pub backend_type : String
  pub paths : List (FrameworkPath F)
  pub secrets : List Secret
  pub locks : Locks

-- strings.TrimSpace(backendHelp)
abbrev backend_help : String
backend_help =
    "The Salesforce secrets engine brokers Salesforce OAuth 2.0 access tokens.\n\nConfigure one or more Salesforce orgs/apps under config/<name>, define\ntoken-issuing roles under roles/<name>, and read short-lived access tokens\nfrom creds/<name>. Supported grant flows: JWT Bearer and Client Credentials."

abbrev same_operation : Operation → Operation → Bool
same_operation create_operation create_operation = true
same_operation update_operation update_operation = true
same_operation read_operation read_operation = true
same_operation delete_operation delete_operation = true
same_operation list_operation list_operation = true
same_operation (other_operation s) (other_operation t) = s == t
same_operation _ _ = false

module _ (F : Framework) where
  -- framework.PathAppend
  unfoldable pub new_paths : List (FrameworkPath F)
  new_paths = path_info F ++ path_config F ++ path_roles F ++ path_creds F ++ path_rotate_table F

  unfoldable pub new_backend : {Locks : Type 0} → Locks → Backend F Locks
  unfolding new_paths
  new_backend create_locks = record {
    help = backend_help;
    backend_type = "logical";
    paths = new_paths;
    secrets = secret_access_token ∷ [];
    locks = create_locks;
  }

  -- `Factory`: the embedded backend's `Setup` may fail.
  unfoldable pub factory :
      {Locks Settings : Type 0}
      → (Settings → Backend F Locks → Outcome (Unit {0}))
      → Locks
      → Settings
      → Outcome (Backend F Locks)
  unfolding new_backend
  factory setup create_locks conf = elim (setup conf (new_backend create_locks)) [
    | fail e ↦ fail e
    | ok _ ↦ ok (new_backend create_locks)
  ]

  abbrev callback_of : Operation → List (Operation × Callback F) → Option (Callback F)
  callback_of op [] = none
  callback_of op ((o, callback) ∷ operations) =
      let rest = callback_of op operations in if same_operation o op then some callback else rest

  abbrev demanded : FrameworkPath F → Demand → Option (Callback F)
  demanded p (operation op) = callback_of op p.operations
  demanded p check_existence = p.existence_check

  -- The request of a path's handler, if it has one for the demand, with what the path captured.
  unfoldable pub handled_by : FrameworkPath F → Captures → Demand → F.Body → Option Request
  handled_by p captures demand body =
      on_nil (demanded p demand) none
        (λ callback. some (callback (F.field_data p.fields captures body)))

  -- The request that a path of the tables serves, if it matches and has a handler.
  unfoldable pub served_by : FrameworkPath F → String → Demand → F.Body → Option Request
  served_by p path demand body =
      on_nil (F.find p.pattern path) none (λ captures. handled_by p captures demand body)

  -- One of the paths serves the request. Which of several that match it is, is left open.
  unfoldable pub IsRouted : List (FrameworkPath F) → String → Demand → F.Body → Request → Type 0
  IsRouted [] path demand body r = ⊥
  IsRouted (p ∷ paths) path demand body r =
      (served_by p path demand body ≡ some r) ⊎ IsRouted paths path demand body r
