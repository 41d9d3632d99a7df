-- ===== src/Ws/Reconnect/Attempts.antt =====
-- Histories of `schedule`, its timer, `cancel` and `reset` of reconnect.ts.
use lunibee.Base.{
  Bool-cases, Option-cases, ℕ, ◌+◌, ◌-◌, ◌≤◌, ◌≡◌, ◌⊎◌, inl, inr, Bool, true, false, Option, none,
  some, List, [], ◌∷◌, arith, if◌then◌else◌, is_some, All,
}
use lunibee.Ws.Reconnect.{
  GatewayReconnect, Fraction, ScheduleResult, ScheduleRefusal, scheduled, refused, arm, schedule,
  is_exhausted, fire, cancel, reset,
}

pub schedule_cases :
    (r : GatewayReconnect) (now : ℕ) (random : Fraction)
    → ((why : ScheduleRefusal) × (schedule r now random ≡ (r, refused why)))
      ⊎ ((r.timer ≡ none) × (is_exhausted r ≡ false) × (schedule r now random ≡ arm r now random))
unfolding schedule
schedule_cases r now random = elim (Bool-cases r.options.enabled) [
  | inr e ↦ inl (ScheduleRefusal.disabled, ground arith)
  | inl e ↦ elim (Option-cases r.timer) [
    | inr (d, t) ↦ inl (ScheduleRefusal.pending, ground arith)
    | inl t ↦ elim (Bool-cases (is_exhausted r)) [
      | inl x ↦ inl (ScheduleRefusal.exhausted, ground arith)
      | inr x ↦ inr (t, x, ground arith)
    ]
  ]
]

arm_options :
    (r : GatewayReconnect) (now : ℕ) (random : Fraction) {m : Option ℕ}
    → r.options.max_attempts ≡ m
    → (arm r now random).0.options.max_attempts ≡ m
unfolding arm
arm_options r now random h = h

-- A call of one of the methods that touch the timer or the attempt count.
pub data Call : Type 0 where
  schedules : ℕ → Fraction → Call
  fires cancels resets : Call

unfoldable pub step : GatewayReconnect → Call → GatewayReconnect
step r (schedules now random) = (schedule r now random).0
step r fires = (fire r).0
step r cancels = cancel r
step r resets = reset r

unfoldable pub run : GatewayReconnect → List Call → GatewayReconnect
run r [] = r
run r (c ∷ cs) = run (step r c) cs

abbrev pub count_armed : ScheduleResult → ℕ → ℕ
count_armed (scheduled d n u) k = k + 1
count_armed (refused why) k = k

-- How many calls of a history arm a reconnect, and how many timers fire.
unfoldable pub armed : GatewayReconnect → List Call → ℕ
armed r [] = 0
armed r (schedules now random ∷ cs) =
    let rest = armed (schedule r now random).0 cs in count_armed (schedule r now random).1 rest
armed r (fires ∷ cs) = armed (fire r).0 cs
armed r (cancels ∷ cs) = armed (cancel r) cs
armed r (resets ∷ cs) = armed (reset r) cs

abbrev count_true : Bool → ℕ → ℕ
count_true true k = k + 1
count_true false k = k

-- How many times the `run` of an armed reconnect is called.
unfoldable pub fired : GatewayReconnect → List Call → ℕ
fired r [] = 0
fired r (schedules now random ∷ cs) = fired (schedule r now random).0 cs
fired r (fires ∷ cs) = let rest = fired (fire r).0 cs in count_true (fire r).1 rest
fired r (cancels ∷ cs) = fired (cancel r) cs
fired r (resets ∷ cs) = fired (reset r) cs

abbrev pub armed_now : GatewayReconnect → ℕ
armed_now r = if is_some r.timer then 1 else 0

-- No history opens more connections than it armed reconnects: each armed timer fires at most once,
-- and arming while one is armed is refused rather than stacked.
pub fired-le-armed :
    (r : GatewayReconnect) (cs : List Call)
    → fired r cs + armed_now (run r cs) ≤ armed r cs + armed_now r
unfolding fired armed run step fire cancel reset arm
fired-le-armed r [] = omega arith
fired-le-armed r (schedules now random ∷ cs) =
    let ih = fired-le-armed (schedule r now random).0 cs in
    elim (schedule_cases r now random) [
      | inl (why, e) ↦ ground arith
      | inr (free, left, e) ↦ ground arith
    ]
fired-le-armed r (fires ∷ cs) = let ih = fired-le-armed (fire r).0 cs in ground arith
fired-le-armed r (cancels ∷ cs) = let ih = fired-le-armed (cancel r) cs in ground arith
fired-le-armed r (resets ∷ cs) = let ih = fired-le-armed (reset r) cs in ground arith

abbrev pub IsReset : Call → Type 0
IsReset resets = Unit {0}
IsReset _ = ⊥

-- Without a reset, a history arms no more reconnects than are left in the attempt budget.
pub armed-le_budget :
    (r : GatewayReconnect) (cs : List Call) (m : ℕ)
    → r.options.max_attempts ≡ some m
    → All (λ c. ¬ IsReset c) cs
    → armed r cs ≤ m - r.attempt_count
unfolding armed arm fire cancel is_exhausted
armed-le_budget r [] m h k = omega arith
armed-le_budget r (schedules now random ∷ cs) m h k = elim (schedule_cases r now random) [
  | inl (why, e) ↦ rw e (armed-le_budget r cs m h k.1)
  | inr (free, left, e) ↦
      let ih = armed-le_budget (arm r now random).0 cs m (arm_options r now random h) k.1 in
      rw e (ground arith)
]
armed-le_budget r (fires ∷ cs) m h k = armed-le_budget (fire r).0 cs m h k.1
armed-le_budget r (cancels ∷ cs) m h k = armed-le_budget (cancel r) cs m h k.1
armed-le_budget r (resets ∷ cs) m h k = absurd (k.0 tt)
