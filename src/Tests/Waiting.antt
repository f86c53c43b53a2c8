-- ===== src/Tests/Waiting.antt =====
-- The waits of a token request, on the platform in memory.
use vault_plugin_secrets_sal.Common.{List, [], ◌∷◌, refl}
use vault_plugin_secrets_sal.Role.{Duration}
use vault_plugin_secrets_sal.Platform.{received}
use vault_plugin_secrets_sal.Platform.Memory.{memory}
use vault_plugin_secrets_sal.Action.{State}
use vault_plugin_secrets_sal.Client.{Form, do_token_request}
use vault_plugin_secrets_sal.Client.Waits.{AtMostTwoWaits, IsTimed, do_token_request-AtMostTwoWaits}
use vault_plugin_secrets_sal.Tests.Data.{app_memory, at_memory, acme}

-- The endpoint is overloaded once, and then gives a token.
abbrev overloaded : State memory
overloaded =
    at_memory (record app_memory { answers = received 503 "" ∷ received 200 "00Dxx!second" ∷ [] })

unfoldable waits_of : memory.World → List Duration
unfolding memory
waits_of m = m.waits

memory-IsTimed : IsTimed memory waits_of
unfolding memory waits_of
memory-IsTimed = record {
  waits-wait = λ d w. refl;
  waits-post = λ c r w. refl;
  waits-context_error = λ w. refl;
  waits-rand_int63n = λ n w. refl;
  rand_int63n-below = λ n w h. (0, refl, h);
}

abbrev secret_form : Form
secret_form = ("grant_type", "client_credentials") ∷ []

do_token_request-AtMostTwoWaits_example :
    AtMostTwoWaits
      (waits_of overloaded.world)
      (waits_of (do_token_request memory acme secret_form overloaded).1.world)
do_token_request-AtMostTwoWaits_example =
    do_token_request-AtMostTwoWaits memory-IsTimed acme secret_form overloaded
