-- ===== src/Ws/Reconnect/Tests.antt =====
-- The theorems about reconnect.ts at concrete inputs.
use lunibee.Base.{
  ◌+◌, ◌-◌, ◌*◌, ◌^◌, ◌≤◌, ◌<◌, min, max, ◌≡◌, refl, true, false, none, some, List, [], ◌∷◌, ◌++◌,
  arith, leb, if◌then◌else◌, All, codes,
}
use lunibee.Ws.SlidingWindow.{drop_expired}
use lunibee.Ws.Reconnect.{
  ReconnectOptions, Fraction, scheduled, new_reconnect, schedule, arm, base_wait, with_jitter,
  is_exhausted, fire, reset, attempt, settle, connecting, limit_of,
}
use lunibee.Ws.Reconnect.Backoff.{schedule_delay_bounds}
use lunibee.Ws.Reconnect.Attempts.{
  Call, schedules, fires, cancels, resets, armed, armed-le_budget, run, step,
}
use lunibee.Ws.Reconnect.Storm.{schedule_storm, reconnects_in, log_run}
use lunibee.Ws.Reconnect.Sharing.{attempt_settled_in_start, join_all}

abbrev options : ReconnectOptions
options = record {
  enabled = true;
  max_attempts = some 3;
  base_delay = 1000;
  max_delay = 30_000;
  storm_limit = some 1;
  storm_window = none;
}

abbrev half : Fraction
half = record { num = 1; den = 2 }

-- The first delay: one second, and half of a quarter of it.
abbrev first_delay : Fraction
first_delay = record { num = 9000; den = 8 }

first_scheduled : (schedule (new_reconnect options) 5 half).1 ≡ scheduled first_delay 0 none
unfolding schedule new_reconnect arm base_wait with_jitter is_exhausted drop_expired
first_scheduled = refl

schedule_delay_bounds_example :
    (min 30_000 (1000 * 2 ^ 0) * 8 ≤ 9000) × (9000 * 4 < (4 * 30_000 + max 4 30_000) * 8)
unfolding new_reconnect
schedule_delay_bounds_example =
    schedule_delay_bounds (new_reconnect options) 5 half first_delay 0 none (omega arith)
      first_scheduled

abbrev history : List Call
history = schedules 5 half ∷ schedules 6 half ∷ fires ∷ resets ∷ []

abbrev no_resets : List Call
no_resets = schedules 5 half ∷ fires ∷ cancels ∷ []

armed-le_budget_example : armed (new_reconnect options) no_resets ≤ 3 - 0
unfolding new_reconnect
armed-le_budget_example =
    armed-le_budget (new_reconnect options) no_resets 3 refl ((λ h. h), ((λ h. h), ((λ h. h), tt)))

-- A second reconnect inside the window, although the first one succeeded and reset the count.
abbrev second_delay : Fraction
second_delay = record { num = 18_000; den = 8 }

second_scheduled :
    (schedule (run (new_reconnect options) history) 9 half).1 ≡ scheduled second_delay 0 (some 2)
unfolding run step fire reset schedule new_reconnect arm base_wait with_jitter is_exhausted
    drop_expired
second_scheduled = refl

schedule_storm_example :
    let r = run (new_reconnect options) history in
    let k = reconnects_in r 9 (log_run (new_reconnect options) [] history) in
    (second_delay ≡ with_jitter (base_wait r.options r.attempt_count k) half)
    × (some 2 ≡ (if leb (limit_of r.options) k then some (k + 1) else none))
schedule_storm_example =
    schedule_storm options history 9 0 half second_delay (some 2) (omega arith) (omega arith)
      second_scheduled

attempt_settled_in_start_example :
    let error = some (codes "failed") in
    let (begun, p, ran) = attempt (new_reconnect options) (λ s. settle s error) in
    (begun.settled ≡ (new_reconnect options).settled ++ (p, error) ∷ [])
    × (connecting begun ≡ true)
    × All (λ q. q ≡ (p, false)) (join_all begun ((λ s. s) ∷ [])).1
unfolding new_reconnect
attempt_settled_in_start_example =
    attempt_settled_in_start (new_reconnect options) (some (codes "failed")) ((λ s. s) ∷ []) refl
