-- ===== src/Ws/Heartbeat/Acks.antt =====
-- Heartbeats and their acknowledgements in heartbeat.ts.
use lunibee.Base.{
  ℕ, ◌≤◌, ◌≡◌, ◌≢◌, Bool, true, false, Option, none, some, List, [], ◌∷◌, ◌++◌, arith, sub_ℕ, ℤ,
  All,
}
use lunibee.Ws.Heartbeat.{
  GatewayHeartbeat, Event, Effect, opens, receives, starts, sends, acks, stops, initial_fires,
  beat_fires, ack_fires, monitor_fires, writes, times_out, fails, ack, zombie, step, run, watch,
  received_message, start, send_heartbeat, acknowledge, stop, scheduled_beat, check_staleness,
}
use lunibee.Ws.Heartbeat.Invariant.{Inv}

-- Only staleness is reported.
abbrev pub IsQuiet : List Effect → Type 0
IsQuiet [] = Unit {0}
IsQuiet (times_out (zombie silent deadline) ∷ es) = IsQuiet es
IsQuiet (_ ∷ es) = ⊥

IsQuiet-append : (xs ys : List Effect) → IsQuiet xs → IsQuiet ys → IsQuiet (xs ++ ys)
IsQuiet-append [] ys p q = q
IsQuiet-append (times_out (zombie silent deadline) ∷ xs) ys p q = IsQuiet-append xs ys p q
IsQuiet-append (times_out (ack elapsed) ∷ xs) ys p q = absurd p
IsQuiet-append (writes sequence written ∷ xs) ys p q = absurd p
IsQuiet-append (fails ∷ xs) ys p q = absurd p

-- The events by which the owner asks for a heartbeat: HELLO, and a heartbeat sent at once.
abbrev pub IsRestart : Event → Type 0
IsRestart (starts interval random) = Unit {0}
IsRestart (sends now sequence written) = Unit {0}
IsRestart _ = ⊥

-- No timer that sends or awaits a heartbeat is armed.
record IsDisarmed (h : GatewayHeartbeat) : Type 0 where
  timer : h.timer ≡ none
  first : h.initial_timer ≡ none
  deadline : h.ack_timer ≡ none

step-IsDisarmed :
    (h : GatewayHeartbeat) (e : Event)
    → ¬ IsRestart e
    → IsDisarmed h
    → IsDisarmed (step h e).0 × IsQuiet (step h e).1
unfolding step watch received_message acknowledge stop check_staleness
step-IsDisarmed h (opens now) r d = ground arith
step-IsDisarmed h (receives now) r d = ground arith
step-IsDisarmed h (starts interval random) r d = absurd (r tt)
step-IsDisarmed h (sends now sequence written) r d = absurd (r tt)
step-IsDisarmed h (acks now) r d = ground arith
step-IsDisarmed h stops r d = ground arith
step-IsDisarmed h (initial_fires now sequence written) r d = ground arith
step-IsDisarmed h (beat_fires now sequence written) r d = ground arith
step-IsDisarmed h (ack_fires now) r d = ground arith
step-IsDisarmed h (monitor_fires now connected) r d = ground arith

run-IsDisarmed :
    (h : GatewayHeartbeat) (es : List Event)
    → All (λ e. ¬ IsRestart e) es
    → IsDisarmed h
    → IsQuiet (run h es).1
unfolding run
run-IsDisarmed h [] r d = tt
run-IsDisarmed h (e ∷ es) (r, rs) d =
    let (still, quiet) = step-IsDisarmed h e r d in
    IsQuiet-append (step h e).1 _ quiet (run-IsDisarmed (step h e).0 es rs still)

-- A regular beat that finds the last heartbeat unacknowledged writes nothing and reports the time
-- since it; from then on, until the owner starts heartbeating again or asks for a heartbeat, no
-- event writes a heartbeat or reports a missing acknowledgement.
pub missed_ack_reported_once :
    (h : GatewayHeartbeat) (now : ℕ) (sequence : Option ℤ) (written : Bool) (es : List Event)
    → h.timer ≢ none
    → h.awaiting_ack ≡ true
    → All (λ e. ¬ IsRestart e) es
    → ((step h (beat_fires now sequence written)).1 ≡ times_out (ack (sub_ℕ now h.sent_at)) ∷ [])
      × IsQuiet (run (step h (beat_fires now sequence written)).0 es).1
unfolding step scheduled_beat
missed_ack_reported_once h now sequence written es armed waiting r =
    let h' = (step h (beat_fires now sequence written)).0 in
    (ground arith, run-IsDisarmed h' es r (ground arith))

abbrev pub has_written : List Effect → Bool
has_written [] = false
has_written (writes sequence true ∷ es) = true
has_written (_ ∷ es) = has_written es

-- Whether a heartbeat that reached the wire is unanswered, by what was seen from outside.
pub outstanding : Bool → Event → List Effect → Bool
outstanding before (acks now) effects = false
outstanding before (starts interval random) effects = false
outstanding before e effects = elim (has_written effects) [ true ↦ true | false ↦ before ]

pub has_ack_timeout : List Effect → Bool
has_ack_timeout [] = false
has_ack_timeout (times_out (ack elapsed) ∷ es) = true
has_ack_timeout (_ ∷ es) = has_ack_timeout es

-- On every event `awaiting_ack` says whether a heartbeat that reached the wire since the last HELLO
-- is unanswered, and a missing acknowledgement is reported only if one is.
pub step-outstanding :
    (h : GatewayHeartbeat) (e : Event)
    → Inv h
    → ((step h e).0.awaiting_ack ≡ outstanding h.awaiting_ack e (step h e).1)
      × (has_ack_timeout (step h e).1 ≡ true → h.awaiting_ack ≡ true)
unfolding step watch received_message start send_heartbeat acknowledge stop scheduled_beat
    check_staleness outstanding has_ack_timeout
step-outstanding h (opens now) v = ground arith
step-outstanding h (receives now) v = ground arith
step-outstanding h (starts interval random) v = ground arith
step-outstanding h (sends now sequence written) v = ground arith
step-outstanding h (acks now) v = ground arith
step-outstanding h stops v = ground arith
step-outstanding h (initial_fires now sequence written) v = ground arith
step-outstanding h (beat_fires now sequence written) v = ground arith
step-outstanding h (ack_fires now) v = ground arith
step-outstanding h (monitor_fires now connected) v = ground arith

-- A heartbeat that could not be written while an earlier one waits moves the clock of that one:
-- the report at its deadline gives the time since the attempt that failed.
pub failed_send_moves_clock :
    (h : GatewayHeartbeat) (due t now : ℕ) (sequence : Option ℤ)
    → h.ack_timer ≡ some due
    → due ≤ now
    → (run h (sends t sequence false ∷ ack_fires now ∷ [])).1
      ≡ writes sequence false ∷ fails ∷ times_out (ack (sub_ℕ now t)) ∷ []
unfolding run step send_heartbeat
failed_send_moves_clock h due t now sequence armed late = ground arith
