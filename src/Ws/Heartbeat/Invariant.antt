-- ===== src/Ws/Heartbeat/Invariant.antt =====
-- What holds of a heartbeat of heartbeat.ts between two events.
use lunibee.Base.{◌≡◌, ◌≢◌, true, false, none, some, List, [], ◌∷◌, arith}
use lunibee.Ws.Heartbeat.{
  GatewayHeartbeat, HeartbeatOptions, Event, opens, receives, starts, sends, acks, stops,
  initial_fires, beat_fires, ack_fires, monitor_fires, new_heartbeat, step, run, watch,
  received_message, start, send_heartbeat, acknowledge, stop, scheduled_beat, check_staleness,
}

-- A heartbeat that waits for its acknowledgement counts as not acknowledged; the deadline is armed
-- only while one waits; the first beat and the regular cadence are never armed together.
pub record Inv (h : GatewayHeartbeat) : Type 0 where
  pub waiting : h.awaiting_ack ≡ true → h.acknowledged ≡ false
  pub deadline : h.ack_timer ≢ none → h.awaiting_ack ≡ true
  pub cadence : h.timer ≢ none → h.initial_timer ≡ none

pub new_heartbeat-Inv :
    (o : HeartbeatOptions) (h : GatewayHeartbeat) → new_heartbeat o ≡ some h → Inv h
unfolding new_heartbeat
new_heartbeat-Inv o h e = ground arith

-- Every event keeps the invariant.
pub step-Inv : (h : GatewayHeartbeat) (e : Event) → Inv h → Inv (step h e).0
unfolding step watch received_message start send_heartbeat acknowledge stop scheduled_beat
    check_staleness
step-Inv h (opens now) v = ground arith
step-Inv h (receives now) v = ground arith
step-Inv h (starts interval random) v = ground arith
step-Inv h (sends now sequence written) v = ground arith
step-Inv h (acks now) v = ground arith
step-Inv h stops v = ground arith
step-Inv h (initial_fires now sequence written) v = ground arith
step-Inv h (beat_fires now sequence written) v = ground arith
step-Inv h (ack_fires now) v = ground arith
step-Inv h (monitor_fires now connected) v = ground arith

pub run-Inv : (h : GatewayHeartbeat) (es : List Event) → Inv h → Inv (run h es).0
unfolding run
run-Inv h [] v = v
run-Inv h (e ∷ es) v = run-Inv (step h e).0 es (step-Inv h e v)
