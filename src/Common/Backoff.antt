-- ===== src/Common/Backoff.antt =====
-- The backoff of the two tasks that reconnect: src/services/cloud_gateway/cloud_gateway_service.rs and
-- src/services/gateway_mqtt/tasks.rs have the same constants and the same doubling, in seconds.
use Prim.Native.Nat.{ℕ, zero, suc, ◌*◌, ◌^◌, ◌≤◌, min}
use mathlib.Core.Path.{◌≡◌, refl}
use native.Mathlib.Omega.{arith}
use native.Mathlib.Nat.{pow-suc}

abbrev pub initial_reconnect_delay : ℕ
initial_reconnect_delay = 2

abbrev pub max_reconnect_delay : ℕ
max_reconnect_delay = 60

-- `(delay * 2).min(MAX_RECONNECT_DELAY)`.
unfoldable pub next_delay : ℕ → ℕ
next_delay delay = min (delay * 2) max_reconnect_delay

-- The delay before the attempt that follows `n` failures in a row.
unfoldable pub delay_after : ℕ → ℕ
unfolding next_delay
delay_after zero = initial_reconnect_delay
delay_after (suc n) = next_delay (delay_after n)

pub record IsDelay (d : ℕ) : Type 0 where
  pub at_least : initial_reconnect_delay ≤ d
  pub at_most : d ≤ max_reconnect_delay

pub next_delay-IsDelay : (d : ℕ) → IsDelay d → IsDelay (next_delay d)
unfolding next_delay
next_delay-IsDelay d h = omega arith

pub delay_after_lem : (n : ℕ) → delay_after n ≡ min (2 ^ suc n) max_reconnect_delay
unfolding delay_after
delay_after_lem zero = refl
delay_after_lem (suc n) = omega (arith, delay_after_lem n, pow-suc 2 (suc n))
