-- ===== src/Ws/Reconnect/Storm.antt =====
-- The storm detection of `schedule` in reconnect.ts, against the log of every armed reconnect.
use lunibee.Base.{
  ℕ, ◌+◌, ◌≤◌, ◌≡◌, Option, none, some, List, [], ◌∷◌, ◌++◌, leb, if◌then◌else◌, length, ap, sym,
  ◌∙◌, ◌≢◌, inl, inr,
}
use lunibee.Ws.SlidingWindow.{
  in_window, Keeps, empty-Keeps, drop_expired-log, drop_expired-Keeps, concat-Keeps, later-Keeps,
}
use lunibee.Ws.Reconnect.{
  GatewayReconnect, ReconnectOptions, Fraction, ScheduleResult, ScheduleRefusal, scheduled, refused,
  base_wait, with_jitter, arm, schedule, limit_of, window_of, fire, cancel, reset, new_reconnect,
}
use lunibee.Ws.Reconnect.Attempts.{
  Call, schedules, fires, cancels, resets, schedule_cases, step, run,
}

abbrev pub Tracks : GatewayReconnect → List ℕ → ℕ → Type 0
Tracks r log last = Keeps (window_of r.options) r.recent log last

-- How many reconnects of the log lie in the storm window that ends now.
abbrev pub reconnects_in : GatewayReconnect → ℕ → List ℕ → ℕ
reconnects_in r now log = length (in_window now (window_of r.options) log)

-- The log after a call that gave a result at a time.
abbrev pub log_after : ScheduleResult → ℕ → List ℕ → List ℕ
log_after (scheduled d n u) now log = log ++ now ∷ []
log_after (refused why) now log = log

refused-ne-scheduled :
    (why : ScheduleRefusal) {d : Fraction} {n : ℕ} {u : Option ℕ} → refused why ≢ scheduled d n u
refused-ne-scheduled why e = cc

scheduled-injective :
    {d d' : Fraction} {n n' : ℕ} {u u' : Option ℕ}
    → scheduled d n u ≡ scheduled d' n' u'
    → (d ≡ d') × (u ≡ u')
scheduled-injective e = (cc, cc)

arm_storm :
    (r : GatewayReconnect) (log : List ℕ) (last now : ℕ) (random : Fraction)
    → last ≤ now
    → Tracks r log last
    → let k = reconnects_in r now log in
      ((arm r now random).1
        ≡ scheduled
            (with_jitter (base_wait r.options r.attempt_count k) random)
            r.attempt_count
            (if leb (limit_of r.options) k then some (k + 1) else none))
      × Tracks (arm r now random).0 (log ++ now ∷ []) now
unfolding arm
arm_storm r log last now random h t = (
  rw (drop_expired-log (window_of r.options) last now r.recent log h t),
  concat-Keeps (window_of r.options) now _ log
      (drop_expired-Keeps (window_of r.options) last now r.recent log h t),
)

schedule-Tracks :
    (r : GatewayReconnect) (log : List ℕ) (last now : ℕ) (random : Fraction)
    → last ≤ now
    → Tracks r log last
    → Tracks (schedule r now random).0 (log_after (schedule r now random).1 now log) now
schedule-Tracks r log last now random h t = elim (schedule_cases r now random) [
  | inl (why, e) ↦ rw e (later-Keeps (window_of r.options) last now r.recent log h t)
  | inr (free, left, e) ↦
      let (result, tracks) = arm_storm r log last now random h t in rw (e, result) tracks
]

schedule_storm_at :
    (r : GatewayReconnect) (log : List ℕ) (last now n : ℕ) (random delay_ms : Fraction)
    (unstable : Option ℕ)
    → last ≤ now
    → Tracks r log last
    → (schedule r now random).1 ≡ scheduled delay_ms n unstable
    → let k = reconnects_in r now log in
      (delay_ms ≡ with_jitter (base_wait r.options r.attempt_count k) random)
      × (unstable ≡ (if leb (limit_of r.options) k then some (k + 1) else none))
schedule_storm_at r log last now n random delay_ms unstable h t e =
    let result = (arm_storm r log last now random h t).0 in
    elim (schedule_cases r now random) [
      | inl (why, f) ↦ absurd (refused-ne-scheduled why (sym (ap (λ p. p.1) f) ∙ e))
      | inr (free, left, f) ↦ scheduled-injective (sym e ∙ ap (λ p. p.1) f ∙ result)
    ]

-- The log of a history.
unfoldable pub log_run : GatewayReconnect → List ℕ → List Call → List ℕ
log_run r log [] = log
log_run r log (schedules now random ∷ cs) =
    log_run (schedule r now random).0 (log_after (schedule r now random).1 now log) cs
log_run r log (fires ∷ cs) = log_run (fire r).0 log cs
log_run r log (cancels ∷ cs) = log_run (cancel r) log cs
log_run r log (resets ∷ cs) = log_run (reset r) log cs

-- The times of a history's calls do not run backwards; the last of them.
abbrev pub last_time : ℕ → List Call → ℕ
last_time last [] = last
last_time last (schedules now random ∷ cs) = last_time now cs
last_time last (_ ∷ cs) = last_time last cs

abbrev pub IsMonotone : ℕ → List Call → Type 0
IsMonotone last [] = Unit {0}
IsMonotone last (schedules now random ∷ cs) = (last ≤ now) × IsMonotone now cs
IsMonotone last (_ ∷ cs) = IsMonotone last cs

run-Tracks :
    (r : GatewayReconnect) (log : List ℕ) (last : ℕ) (cs : List Call)
    → IsMonotone last cs
    → Tracks r log last
    → Tracks (run r cs) (log_run r log cs) (last_time last cs)
unfolding run log_run step fire cancel reset
run-Tracks r log last [] m t = t
run-Tracks r log last (schedules now random ∷ cs) m t =
    run-Tracks (schedule r now random).0 (log_after (schedule r now random).1 now log) now cs m.1
      (schedule-Tracks r log last now random m.0 t)
run-Tracks r log last (fires ∷ cs) m t = run-Tracks (fire r).0 log last cs m t
run-Tracks r log last (cancels ∷ cs) m t = run-Tracks (cancel r) log last cs m t
run-Tracks r log last (resets ∷ cs) m t = run-Tracks (reset r) log last cs m t

new_reconnect-Tracks : (options : ReconnectOptions) → Tracks (new_reconnect options) [] 0
unfolding new_reconnect
new_reconnect-Tracks options = empty-Keeps (window_of options)

-- After any history of a new object, with a clock that does not run backwards, a reconnect that
-- is armed is reported unstable exactly when at least `stormLimit` of all the reconnects ever
-- armed lie in the storm window, whatever resets came between, and its delay is the one for
-- that number.
pub schedule_storm :
    (options : ReconnectOptions) (cs : List Call) (now n : ℕ) (random delay_ms : Fraction)
    (unstable : Option ℕ)
    → IsMonotone 0 cs
    → last_time 0 cs ≤ now
    → let r = run (new_reconnect options) cs in
      let k = reconnects_in r now (log_run (new_reconnect options) [] cs) in
      (schedule r now random).1 ≡ scheduled delay_ms n unstable
      → (delay_ms ≡ with_jitter (base_wait r.options r.attempt_count k) random)
        × (unstable ≡ (if leb (limit_of r.options) k then some (k + 1) else none))
schedule_storm options cs now n random delay_ms unstable m h e =
    schedule_storm_at (run (new_reconnect options) cs) _ (last_time 0 cs) now n random delay_ms
      unstable h (run-Tracks (new_reconnect options) [] 0 cs m (new_reconnect-Tracks options)) e
