-- ===== src/Common/Supplied.antt =====
-- What an update makes of one value of a record: the supplied one, or what was there before.
use vault_plugin_secrets_sal.Common.{ℕ, ◌≡◌, ◌≢◌, Option, none, some}
use vault_plugin_secrets_sal.Common.Int.{ℤ, pos, wrap_int64, ◌*ℤ◌}

-- `Replaced o old new`: `new` is the value in `o`, or `old` where none was supplied.
pub data Replaced {ℓ} {A : Type ℓ} : Option A → A → A → Type ℓ where
  taken : {v old : A} → Replaced (some v) old v
  kept : {old : A} → Replaced none old old

-- The same for a time in nanoseconds that is supplied in seconds, in 64 bits; and for one that is
-- `n` seconds where it is not supplied and was zero before.
pub data ReplacedTime : Option ℤ → ℤ → ℤ → Type 0 where
  taken_seconds : {v old : ℤ} → ReplacedTime (some v) old (wrap_int64 (v *ℤ pos 1_000_000_000))
  kept_time : {old : ℤ} → ReplacedTime none old old

pub data DefaultedTime (n : ℕ) : Option ℤ → ℤ → ℤ → Type 0 where
  given_seconds : {v old : ℤ} → DefaultedTime n (some v) old (wrap_int64 (v *ℤ pos 1_000_000_000))
  set_default :
      {old : ℤ} → old ≡ pos 0 → DefaultedTime n none old (wrap_int64 (pos n *ℤ pos 1_000_000_000))
  not_zero : {old : ℤ} → old ≢ pos 0 → DefaultedTime n none old old
