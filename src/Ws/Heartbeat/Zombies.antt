-- ===== src/Ws/Heartbeat/Zombies.antt =====
-- The staleness watch of heartbeat.ts.
use lunibee.Base.{
  ◌⊎◌, inl, inr, Bool-cases, ◌==◌, leb, ℕ, suc, ◌+◌, ◌≤◌, ◌≡◌, ◌≢◌, Bool, true, false, List, [],
  ◌∷◌, ◌++◌, arith, sub_ℕ,
}
use lunibee.Ws.Heartbeat.{
  GatewayHeartbeat, Event, Effect, opens, receives, starts, sends, acks, stops, initial_fires,
  beat_fires, ack_fires, monitor_fires, writes, times_out, fails, ack, zombie, step, run, watch,
  received_message, start, send_heartbeat, acknowledge, stop, scheduled_beat, check_staleness,
  staleness_deadline,
}

-- A silence at least as long as the zombie timeout, and as one interval with its acknowledgement.
abbrev pub IsStale : GatewayHeartbeat → ℕ → Type 0
IsStale h now =
    (h.last_message_at + h.options.zombie_timeout ≤ now)
    × (h.last_message_at + (h.interval + h.options.ack_timeout) ≤ now)

-- The connection is open, a message has arrived, the silence is stale and was not yet reported.
pub record IsDue (h : GatewayHeartbeat) (now : ℕ) (connected : Bool) : Type 0 where
  pub open_socket : connected ≡ true
  pub spoken : h.last_message_at ≢ 0
  pub unreported : h.zombie_reported ≡ false
  pub stale : IsStale h now

check_staleness_due :
    (h : GatewayHeartbeat) (now : ℕ) (connected : Bool)
    → IsDue h now connected
    → check_staleness h now connected ≡ (
      record h { zombie_reported = true },
      times_out (zombie (sub_ℕ now h.last_message_at) (staleness_deadline h)) ∷ [],
    )
unfolding check_staleness staleness_deadline
check_staleness_due h now connected d = ground arith

check_staleness_cases :
    (h : GatewayHeartbeat) (now : ℕ) (connected : Bool)
    → (check_staleness h now connected ≡ (h, [])) ⊎ IsDue h now connected
unfolding check_staleness staleness_deadline
check_staleness_cases h now connected = elim (Bool-cases connected) [
  | inr e ↦ inl (ground arith)
  | inl e ↦ elim (Bool-cases (h.last_message_at == 0)) [
    | inl z ↦ inl (ground arith)
    | inr z ↦ elim (Bool-cases h.zombie_reported) [
      | inl r ↦ inl (ground arith)
      | inr r ↦ elim (Bool-cases (leb (h.last_message_at + staleness_deadline h) now)) [
        | inr l ↦ inl (ground arith)
        | inl l ↦ inr (record {
          open_socket = e;
          spoken = ground arith;
          unreported = r;
          stale = (ground arith, ground arith);
        })
      ]
    ]
  ]
]

-- A staleness check declares the connection dead, and reports the silence and the deadline, when
-- it is connected, a message has arrived, the silence is stale and none was reported since the
-- last message; otherwise it reports nothing and changes nothing.
pub check_staleness_exact :
    (h : GatewayHeartbeat) (now : ℕ) (connected : Bool)
    → (IsDue h now connected
        → check_staleness h now connected ≡ (
          record h { zombie_reported = true },
          times_out (zombie (sub_ℕ now h.last_message_at) (staleness_deadline h)) ∷ [],
        ))
      × (¬ IsDue h now connected → check_staleness h now connected ≡ (h, []))
check_staleness_exact h now connected = (
  check_staleness_due h now connected,
  λ n. elim (check_staleness_cases h now connected) [ inl e ↦ e | inr d ↦ absurd (n d) ],
)

abbrev pub count_zombies : List Effect → ℕ
count_zombies [] = 0
count_zombies (times_out (zombie silent deadline) ∷ es) = suc (count_zombies es)
count_zombies (_ ∷ es) = count_zombies es

-- The events that end a silence.
abbrev pub count_arrivals : List Event → ℕ
count_arrivals [] = 0
count_arrivals (opens now ∷ es) = suc (count_arrivals es)
count_arrivals (receives now ∷ es) = suc (count_arrivals es)
count_arrivals (_ ∷ es) = count_arrivals es

abbrev pub unreported_count : GatewayHeartbeat → ℕ
unreported_count h = elim h.zombie_reported [ true ↦ 0 | false ↦ 1 ]

count_zombies-append :
    (xs ys : List Effect) → count_zombies (xs ++ ys) ≡ count_zombies xs + count_zombies ys
count_zombies-append [] ys = omega arith
count_zombies-append (writes sequence written ∷ xs) ys = count_zombies-append xs ys
count_zombies-append (times_out (ack elapsed) ∷ xs) ys = count_zombies-append xs ys
count_zombies-append (times_out (zombie silent deadline) ∷ xs) ys =
    omega (arith, count_zombies-append xs ys)
count_zombies-append (fails ∷ xs) ys = count_zombies-append xs ys

step-zombies :
    (h : GatewayHeartbeat) (e : Event)
    → count_zombies (step h e).1 + unreported_count (step h e).0
      ≤ count_arrivals (e ∷ []) + unreported_count h
unfolding step watch received_message start send_heartbeat acknowledge stop scheduled_beat
    check_staleness
step-zombies h (opens now) = ground arith
step-zombies h (receives now) = ground arith
step-zombies h (starts interval random) = ground arith
step-zombies h (sends now sequence written) = ground arith
step-zombies h (acks now) = ground arith
step-zombies h stops = ground arith
step-zombies h (initial_fires now sequence written) = ground arith
step-zombies h (beat_fires now sequence written) = ground arith
step-zombies h (ack_fires now) = ground arith
step-zombies h (monitor_fires now connected) = ground arith

count_arrivals-cons :
    (e : Event) (es : List Event)
    → count_arrivals (e ∷ es) ≡ count_arrivals (e ∷ []) + count_arrivals es
count_arrivals-cons (opens now) es = omega arith
count_arrivals-cons (receives now) es = omega arith
count_arrivals-cons _ es = omega arith

-- A silence is reported at most once: over any history the zombie reports are at most the messages
-- and openings that ended a silence, and one more if the first silence was not reported before.
pub run-zombies_le :
    (h : GatewayHeartbeat) (es : List Event)
    → count_zombies (run h es).1 ≤ count_arrivals es + unreported_count h
unfolding run
run-zombies_le h [] = omega arith
run-zombies_le h (e ∷ es) = omega (
  arith,
  count_zombies-append (step h e).1 (run (step h e).0 es).1,
  count_arrivals-cons e es,
  step-zombies h e,
  run-zombies_le (step h e).0 es,
)
