-- ===== src/Events/Backoff.antt =====
-- app/static/js/events.js: the delay of `scheduleReconnect`. Times are in millionths of a millisecond,
-- and `random` is what `Math.random()` gives, in millionths.
use fetchly.Common.{ℕ, ◌+◌, ◌-◌, ◌*◌, ◌/◌, ◌^◌, ◌≤◌, ◌<◌, ◌≡◌, refl, min, arith}
use fetchly.Ecma.{unit}
use fetchly.Config.{sse_reconnect_ms}
use native.Mathlib.Nat.{pow-le-pow_right}

-- In milliseconds, for the attempt that is counted already.
unfoldable pub base_delay : ℕ → ℕ
base_delay attempt = min (sse_reconnect_ms * 2 ^ (attempt - 1)) 30_000

unfoldable pub reconnect_delay : ℕ → ℕ → ℕ
reconnect_delay attempt random =
    base_delay attempt * unit + random * min (base_delay attempt / 2) 5_000

base_delay_floor : (attempt : ℕ) → sse_reconnect_ms ≤ base_delay attempt
unfolding base_delay
base_delay_floor attempt =
    let one : 2 ^ 0 ≤ 2 ^ (attempt - 1) = pow-le-pow_right (omega arith) {i = 0} (omega arith) in
    omega arith

base_delay_ceiling : (attempt : ℕ) → base_delay attempt ≤ 30_000
unfolding base_delay
base_delay_ceiling attempt = omega arith

jitter_bound : (random m : ℕ) → random < unit → m ≤ 5_000 → random * m ≤ (unit - 1) * 5_000
jitter_bound random m h k = grind arith

-- For every attempt and every outcome of the random draw, the delay is at least three seconds and
-- less than thirty-five.
pub reconnect_delay_bounds :
    (attempt random : ℕ)
    → random < unit
    → (3_000 * unit ≤ reconnect_delay attempt random)
      × (reconnect_delay attempt random < 35_000 * unit)
unfolding reconnect_delay
reconnect_delay_bounds attempt random h =
    let jitter = jitter_bound random (min (base_delay attempt / 2) 5_000) h (omega arith) in
    (omega (arith, base_delay_floor attempt), omega (arith, base_delay_ceiling attempt))

-- Without the random part no later attempt waits less than an earlier one, the first waits three
-- seconds, and the fifth and all later ones thirty.
pub base_delay_grows :
    (m n : ℕ)
    → m ≤ n
    → (base_delay m ≤ base_delay n) × (base_delay 1 ≡ 3_000) × (base_delay (n + 5) ≡ 30_000)
unfolding base_delay
base_delay_grows m n h =
    let step : 2 ^ (m - 1) ≤ 2 ^ (n - 1) = pow-le-pow_right (omega arith) (omega arith) in
    let far : 2 ^ 4 ≤ 2 ^ (n + 5 - 1) = pow-le-pow_right (omega arith) {i = 4} (omega arith) in
    (omega arith, refl, omega arith)
