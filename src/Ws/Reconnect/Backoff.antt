-- ===== src/Ws/Reconnect/Backoff.antt =====
-- The waits and the attempt budget of `schedule` in reconnect.ts.
use native.Mathlib.Nat.{mul-le-mul_left, mul-le-mul_right}
use lunibee.Ws.SlidingWindow.{drop_expired}
use lunibee.Base.{
  subst, ℕ, ◌+◌, ◌*◌, ◌^◌, ◌≤◌, ◌<◌, min, max, ◌≡◌, true, false, Option, none, arith, length,
}
use lunibee.Ws.Reconnect.{
  GatewayReconnect, ReconnectOptions, Fraction, scheduled, base_wait, with_jitter, arm, schedule,
  is_exhausted, window_of,
}

base_wait_bounds :
    (o : ReconnectOptions) (attempt reconnects : ℕ)
    → (min o.max_delay (o.base_delay * 2 ^ attempt) ≤ base_wait o attempt reconnects)
      × (base_wait o attempt reconnects ≤ o.max_delay)
unfolding base_wait
base_wait_bounds o attempt reconnects = ground arith

-- A random number below 1.
abbrev pub IsRandom : Fraction → Type 0
IsRandom f = f.num < f.den

with_jitter_bounds :
    (low high delay : ℕ) (random : Fraction)
    → IsRandom random
    → low ≤ delay
    → delay ≤ high
    → (low * (with_jitter delay random).den ≤ (with_jitter delay random).num)
      × ((with_jitter delay random).num * 4
          < (4 * high + max 4 high) * (with_jitter delay random).den)
unfolding with_jitter
with_jitter_bounds low high delay random h p q =
    let spread : max 4 delay ≤ max 4 high = omega arith in
    (
      omega (arith, mul-le-mul_left random.den p),
      omega (
        arith,
        mul-le-mul_left random.den q,
        mul-le-mul_left random.den spread,
        mul-le-mul_right (max 4 delay) h,
      ),
    )

-- A reconnect is armed only if reconnects are enabled, none is armed and the budget is not spent.
pub schedule_armed :
    (r : GatewayReconnect) (now : ℕ) (random : Fraction) {d : Fraction} {n : ℕ} {u : Option ℕ}
    → (schedule r now random).1 ≡ scheduled d n u
    → (r.options.enabled ≡ true)
      × (r.timer ≡ none)
      × (is_exhausted r ≡ false)
      × (schedule r now random ≡ arm r now random)
unfolding schedule
schedule_armed r now random e = ground arith

arm-delay :
    (r : GatewayReconnect) (now : ℕ) (random : Fraction) {d : Fraction} {n : ℕ} {u : Option ℕ}
    → (arm r now random).1 ≡ scheduled d n u
    → (reconnects : ℕ) × (with_jitter (base_wait r.options r.attempt_count reconnects) random ≡ d)
unfolding arm
arm-delay r now random e = (length (drop_expired now (window_of r.options) r.recent), ground arith)

-- An armed reconnect waits at least the capped exponential delay of its attempt, and less than
-- the ceiling and its jitter, a quarter of the ceiling or one millisecond.
pub schedule_delay_bounds :
    (r : GatewayReconnect) (now : ℕ) (random delay_ms : Fraction) (n : ℕ) (unstable : Option ℕ)
    → IsRandom random
    → (schedule r now random).1 ≡ scheduled delay_ms n unstable
    → (min r.options.max_delay (r.options.base_delay * 2 ^ r.attempt_count) * delay_ms.den
        ≤ delay_ms.num)
      × (delay_ms.num * 4 < (4 * r.options.max_delay + max 4 r.options.max_delay) * delay_ms.den)
schedule_delay_bounds r now random delay_ms n unstable h e =
    let armed = schedule_armed r now random e in
    let (reconnects, delay) =
      arm-delay r now random (subst (λ s. s.1 ≡ scheduled delay_ms n unstable) armed.3 e) in
    let wait = base_wait_bounds r.options r.attempt_count reconnects in
    rw (← delay) (with_jitter_bounds _ _ _ random h wait.0 wait.1)
