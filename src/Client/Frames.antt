-- ===== src/Client/Frames.antt =====
-- Talking to Salesforce leaves the storage alone.
use vault_plugin_secrets_sal.Common.{String, refl}
use vault_plugin_secrets_sal.Config.{Config}
use vault_plugin_secrets_sal.Platform.{Platform}
use vault_plugin_secrets_sal.Platform.Laws.{IsLawful}
use vault_plugin_secrets_sal.Action.{State}
use vault_plugin_secrets_sal.Action.Keeps.{Keeps, keeps_rules}
use vault_plugin_secrets_sal.Storage.Frames.{
  IsStable, Keeps-now, Keeps-context_error, Keeps-rand_int63n, Keeps-wait, Keeps-try_lock,
  Keeps-unlock, Keeps-log, Keeps-get, Keeps-post,
}
use vault_plugin_secrets_sal.Jwt.{store_key}
use vault_plugin_secrets_sal.Client.{revoke_token}
use vault_plugin_secrets_sal.Client.Targets.{Calls}

module _ {V : Platform} (L : IsLawful V) {W : String → Type 0} {P : State V → Type 0}
    (st : IsStable L W P) where
  Keeps-store_key : (pem : String) (key : V.Key) → Keeps P (store_key V pem key)
  unfolding store_key
  Keeps-store_key pem key = record {
    at = λ s h. st.transfer s (store_key V pem key s).1 (λ j _. refl) h;
  }

  -- Any request may be sent.
  pub stable_calls : Calls V P (λ _. Unit {0})
  stable_calls = record {
    now = Keeps-now L st;
    context_error = Keeps-context_error L st;
    rand_int63n = Keeps-rand_int63n L st;
    wait = Keeps-wait L st;
    try_lock = Keeps-try_lock L st;
    unlock = Keeps-unlock L st;
    log = Keeps-log L st;
    get = Keeps-get L st;
    store = Keeps-store_key;
    post = λ client r _. Keeps-post L st client r;
  }

  pub Keeps-revoke_token : (cfg : Config) (token : String) → Keeps P (revoke_token V cfg token)
  unfolding revoke_token
  Keeps-revoke_token cfg token = search (keeps_rules, Keeps-post L st) depth 8
