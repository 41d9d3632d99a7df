-- ===== src/Ws/Heartbeat.antt =====
-- packages/ws/src/heartbeat.ts: `GatewayHeartbeat`.
-- The clock, the owner's answers (`send`, `sequence`, `isConnected`) and `Math.random()` are
-- arguments; the calls of the owner's callbacks are listed as effects, and what the owner does in
-- reaction to them is a later event. A timer field holds what an armed timer was given, and `none`
-- once it was cleared or, for a timeout, has fired.
pub mod Invariant
pub mod Acks
pub mod Zombies
mod Tests
use lunibee.Base.{
  ℕ, ◌+◌, ◌*◌, ◌-◌, min, max, Bool, true, false, not, ◌||◌, Option, none, some, List, [], ◌∷◌, ◌++◌,
  ℤ, pos, negsuc, sub_ℕ, ltb_ℤ, leb, ◌==◌, if◌then◌else◌, is_some,
}
use lunibee.Ws.Reconnect.{Fraction}

pub record HeartbeatOptions : Type 0 where
  pub ack_timeout : ℕ
  pub zombie_timeout : ℕ

-- `ack elapsedMs`, `zombie silentFor deadline`
pub data HeartbeatTimeout : Type 0 where
  ack : ℤ → HeartbeatTimeout
  zombie : ℤ → ℕ → HeartbeatTimeout

-- `writes sequence ok` is a call of `send` with its answer.
pub data Effect : Type 0 where
  writes : Option ℤ → Bool → Effect
  times_out : HeartbeatTimeout → Effect
  fails : Effect

-- The timeout of `start`: its delay, and the period of the interval that it arms.
pub record InitialTimer : Type 0 where
  pub delay : Fraction
  pub period : ℕ

-- `ack_timer` holds the time at which it is due, `timer` its period, and `monitor_timer` its
-- period in half milliseconds.
pub record GatewayHeartbeat : Type 0 where
  pub options : HeartbeatOptions
  pub interval : ℕ
  pub acknowledged : Bool
  pub sent_at : ℕ
  pub latency : ℤ
  pub last_message_at : ℕ
  pub zombie_reported : Bool
  pub awaiting_ack : Bool
  pub timer : Option ℕ
  pub initial_timer : Option InitialTimer
  pub ack_timer : Option ℕ
  pub monitor_timer : Option ℕ

abbrev pub fresh_heartbeat : HeartbeatOptions → GatewayHeartbeat
fresh_heartbeat options = record {
  options = options;
  interval = 0;
  acknowledged = true;
  sent_at = 0;
  latency = negsuc 0;
  last_message_at = 0;
  zombie_reported = false;
  awaiting_ack = false;
  timer = none;
  initial_timer = none;
  ack_timer = none;
  monitor_timer = none;
}

-- The constructor; `none` is its RangeError.
unfoldable pub new_heartbeat : HeartbeatOptions → Option GatewayHeartbeat
new_heartbeat options =
    if leb options.zombie_timeout options.ack_timeout then none else some (fresh_heartbeat options)

unfoldable pub silent_for : GatewayHeartbeat → ℕ → ℤ
silent_for h now = if h.last_message_at == 0 then pos 0 else sub_ℕ now h.last_message_at

unfoldable pub staleness_deadline : GatewayHeartbeat → ℕ
staleness_deadline h = max h.options.zombie_timeout (h.interval + h.options.ack_timeout)

unfoldable pub is_healthy : GatewayHeartbeat → ℕ → Bool
unfolding silent_for staleness_deadline
is_healthy h now =
    if not h.acknowledged
    then false
    else if h.last_message_at == 0
    then true
    else ltb_ℤ (silent_for h now) (pos (staleness_deadline h))

-- `Math.max(1, Math.min(1000, ackTimeout, zombieTimeout / 2))`, in half milliseconds.
abbrev pub monitor_period : HeartbeatOptions → ℕ
monitor_period o = max 2 (min (2 * 1000) (min (2 * o.ack_timeout) o.zombie_timeout))

start_monitor : GatewayHeartbeat → GatewayHeartbeat
start_monitor h = record h { monitor_timer = some (monitor_period h.options) }

unfoldable pub received_message : GatewayHeartbeat → ℕ → GatewayHeartbeat
received_message h now = record h { last_message_at = now; zombie_reported = false }

unfoldable pub watch : GatewayHeartbeat → ℕ → GatewayHeartbeat
unfolding start_monitor
watch h now = start_monitor (record h { last_message_at = now; zombie_reported = false })

unfoldable pub clear_beat_timers : GatewayHeartbeat → GatewayHeartbeat
clear_beat_timers h = record h { timer = none; initial_timer = none; ack_timer = none }

-- `random` is the value of `Math.random()`.
unfoldable pub start : GatewayHeartbeat → ℕ → Fraction → GatewayHeartbeat
unfolding clear_beat_timers
start h interval random =
    let first : InitialTimer = record {
      delay = record { num = random.num * interval; den = random.den };
      period = interval;
    } in
    record (clear_beat_timers h) {
      interval = interval;
      acknowledged = true;
      awaiting_ack = false;
      initial_timer = some first;
    }

unfoldable pub stop : GatewayHeartbeat → GatewayHeartbeat
unfolding clear_beat_timers
stop h = record (clear_beat_timers h) { monitor_timer = none }

unfoldable pub send_heartbeat :
    GatewayHeartbeat → ℕ → Option ℤ → Bool → GatewayHeartbeat × List Effect
send_heartbeat h now sequence written =
    let sent = record h { acknowledged = false; sent_at = now } in
    if written
    then (
      record sent { awaiting_ack = true; ack_timer = some (now + h.options.ack_timeout) },
      writes sequence true ∷ [],
    )
    else (sent, writes sequence false ∷ fails ∷ [])

unfoldable pub scheduled_beat :
    GatewayHeartbeat → ℕ → Option ℤ → Bool → GatewayHeartbeat × List Effect
unfolding send_heartbeat clear_beat_timers
scheduled_beat h now sequence written =
    if h.awaiting_ack
    then (clear_beat_timers h, times_out (ack (sub_ℕ now h.sent_at)) ∷ [])
    else send_heartbeat h now sequence written

-- The callback of the timeout that `start` arms.
initial_beat :
    GatewayHeartbeat → InitialTimer → ℕ → Option ℤ → Bool → GatewayHeartbeat × List Effect
unfolding send_heartbeat
initial_beat h first now sequence written =
    let (sent, effects) = send_heartbeat (record h { initial_timer = none }) now sequence written in
    (record sent { timer = some first.period }, effects)

-- The callback of the acknowledgement timeout.
ack_deadline : GatewayHeartbeat → ℕ → GatewayHeartbeat × List Effect
ack_deadline h now =
    let fired = record h { ack_timer = none } in
    if h.acknowledged then (fired, []) else (fired, times_out (ack (sub_ℕ now h.sent_at)) ∷ [])

unfoldable pub acknowledge : GatewayHeartbeat → ℕ → GatewayHeartbeat
acknowledge h now = if h.acknowledged then h else record h {
  acknowledged = true;
  awaiting_ack = false;
  latency = sub_ℕ now h.sent_at;
  ack_timer = none;
}

unfoldable pub check_staleness : GatewayHeartbeat → ℕ → Bool → GatewayHeartbeat × List Effect
unfolding silent_for staleness_deadline
check_staleness h now connected =
    let silent = silent_for h now in
    let deadline = staleness_deadline h in
    if not connected || h.last_message_at == 0
    then (h, [])
    else if ltb_ℤ silent (pos deadline) || h.zombie_reported
    then (h, [])
    else (record h { zombie_reported = true }, times_out (zombie silent deadline) ∷ [])

-- What happens to a heartbeat: a call of its owner, or an armed timer that fires.
pub data Event : Type 0 where
  opens : ℕ → Event
  receives : ℕ → Event
  starts : ℕ → Fraction → Event
  sends : ℕ → Option ℤ → Bool → Event
  acks : ℕ → Event
  stops : Event
  initial_fires : ℕ → Option ℤ → Bool → Event
  beat_fires : ℕ → Option ℤ → Bool → Event
  ack_fires : ℕ → Event
  monitor_fires : ℕ → Bool → Event

-- A timer that is not armed, or not yet due, does not fire.
unfoldable pub step : GatewayHeartbeat → Event → GatewayHeartbeat × List Effect
unfolding initial_beat ack_deadline
step h (opens now) = (watch h now, [])
step h (receives now) = (received_message h now, [])
step h (starts interval random) = (start h interval random, [])
step h (sends now sequence written) = send_heartbeat h now sequence written
step h (acks now) = (acknowledge h now, [])
step h stops = (stop h, [])
step h (initial_fires now sequence written) = elim h.initial_timer [
  | none ↦ (h, [])
  | some first ↦ initial_beat h first now sequence written
]
step h (beat_fires now sequence written) =
    if is_some h.timer then scheduled_beat h now sequence written else (h, [])
step h (ack_fires now) = elim h.ack_timer [
  | none ↦ (h, [])
  | some due ↦ if leb due now then ack_deadline h now else (h, [])
]
step h (monitor_fires now connected) =
    if is_some h.monitor_timer then check_staleness h now connected else (h, [])

unfoldable pub run : GatewayHeartbeat → List Event → GatewayHeartbeat × List Effect
run h [] = (h, [])
run h (e ∷ es) =
    let (h', effects) = step h e in let (h'', rest) = run h' es in (h'', effects ++ rest)
