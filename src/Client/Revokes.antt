-- ===== src/Client/Revokes.antt =====
-- What a revocation sends (client.go `revokeToken`).
use vault_plugin_secrets_sal.Common.{
  ℕ, ◌≤◌, ◌≡◌, refl, String, false, List, [], ◌∷◌, ◌==◌, arith, inl, inr, text-cases,
}
use vault_plugin_secrets_sal.Config.{Config, revoke_url}
use vault_plugin_secrets_sal.Platform.{Platform, HttpRequest}
use vault_plugin_secrets_sal.Platform.Exchanges.{IsRecorded}
use vault_plugin_secrets_sal.Action.{State, pure}
use vault_plugin_secrets_sal.Client.{revoke_token}
use vault_plugin_secrets_sal.Client.Sends.{Sent, nothing, Sends, Sends-lift, Sends-bind, Sends-post}

module _ {V : Platform} {sent : V.World → List HttpRequest}
    {Redirect : HttpRequest → HttpRequest → Type 0} (R : IsRecorded V sent Redirect) (cfg : Config)
    (access_token : String) where
  -- The revocation request.
  abbrev request : HttpRequest
  request = record { url = revoke_url cfg; form = ("token", access_token) ∷ [] }

  Sends-revoke_token :
      (access_token == "") ≡ false → Sends R request 1 (revoke_token V cfg access_token)
  unfolding revoke_token
  Sends-revoke_token named = rw named (
      Sends-bind R request 0 1 _ _ (Sends-lift R request 0 _) λ client.
        Sends-bind R request 0 1 _ _ (Sends-lift R request 0 _) λ _.
          Sends-bind R request 1 0 _ _ (Sends-post R request client)
            λ result. Sends-lift R request 0 _)

  -- A revocation makes at most one exchange, which begins with the token to the revocation
  -- endpoint of the configuration, and none for an empty token.
  revoke_token-Sent :
      (s : State V)
      → (k : ℕ) × (k ≤ 1)
        × (access_token ≡ "" → k ≡ 0)
        × Sent Redirect
            (record { url = revoke_url cfg; form = ("token", access_token) ∷ [] })
            (sent s.world)
            k
            (sent (revoke_token V cfg access_token s).1.world)
  unfolding revoke_token pure
  revoke_token-Sent s = elim (text-cases access_token "") [
    | inl (same, e) ↦ (0, omega arith, λ _. refl, rw (revoke_token, same) nothing)
    | inr (differ, n) ↦
        let (k, below, p) = (Sends-revoke_token differ).at s in (k, below, λ e. absurd (n e), p)
  ]
