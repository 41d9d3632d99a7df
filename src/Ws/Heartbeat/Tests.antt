-- ===== src/Ws/Heartbeat/Tests.antt =====
-- The theorems about heartbeat.ts at concrete inputs.
use lunibee.Base.{◌≡◌, refl, true, false, none, some, [], ◌∷◌, arith, sub_ℕ}
use lunibee.Ws.Reconnect.{Fraction}
use lunibee.Ws.Heartbeat.{
  GatewayHeartbeat, opens, starts, acks, initial_fires, beat_fires, ack_fires, times_out, ack,
  sends, writes, fails, fresh_heartbeat, step, run, start, send_heartbeat, watch, new_heartbeat,
}
use lunibee.Ws.Heartbeat.Invariant.{Inv, new_heartbeat-Inv}
use lunibee.Ws.Heartbeat.Acks.{
  failed_send_moves_clock, missed_ack_reported_once, IsQuiet, step-outstanding, outstanding,
  has_ack_timeout,
}

abbrev new : GatewayHeartbeat
new = fresh_heartbeat (record { ack_timeout = 10; zombie_timeout = 30 })

abbrev half : Fraction
half = record { num = 1; den = 2 }

new-Inv : Inv new
unfolding new_heartbeat
new-Inv = new_heartbeat-Inv new.options new refl

-- HELLO at interval 40, the first beat written at 120, none acknowledged.
abbrev waiting : GatewayHeartbeat
waiting = record new {
  interval = 40;
  acknowledged = false;
  sent_at = 120;
  last_message_at = 100;
  awaiting_ack = true;
  timer = some 40;
  ack_timer = some 130;
  monitor_timer = some 20;
}

waiting_reached :
    (run new (opens 100 ∷ starts 40 half ∷ initial_fires 120 none true ∷ [])).0 ≡ waiting
unfolding run step watch start send_heartbeat
waiting_reached = refl

waiting-Inv : Inv waiting
waiting-Inv = ground arith

missed_ack_reported_once_example :
    ((step waiting (beat_fires 160 none true)).1 ≡ times_out (ack (sub_ℕ 160 120)) ∷ [])
    × IsQuiet (run (step waiting (beat_fires 160 none true)).0 (ack_fires 170 ∷ acks 180 ∷ [])).1
missed_ack_reported_once_example =
    missed_ack_reported_once waiting 160 none true (ack_fires 170 ∷ acks 180 ∷ []) (λ e. cc) refl
      ((λ h. h), ((λ h. h), tt))

step-outstanding_example :
    ((step waiting (ack_fires 131)).0.awaiting_ack
      ≡ outstanding true (ack_fires 131) (step waiting (ack_fires 131)).1)
    × (has_ack_timeout (step waiting (ack_fires 131)).1 ≡ true → true ≡ true)
step-outstanding_example = step-outstanding waiting (ack_fires 131) waiting-Inv

failed_send_moves_clock_example :
    (run waiting (sends 129 none false ∷ ack_fires 130 ∷ [])).1
    ≡ writes none false ∷ fails ∷ times_out (ack (sub_ℕ 130 129)) ∷ []
failed_send_moves_clock_example =
    failed_send_moves_clock waiting 130 129 130 none refl (omega arith)
