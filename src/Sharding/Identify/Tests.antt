-- ===== src/Sharding/Identify/Tests.antt =====
-- The theorems on identify.ts at concrete histories.
use lunibee.Base.{◌+◌, ◌≡◌, refl, false, none, some, List, [], ◌∷◌, arith}
use lunibee.Sharding.Identify.State.{IdentifyCoordinator, new_coordinator}
use lunibee.Sharding.Identify.Pumping.{
  pump, pump_open, rounds, after_rounds, pump_keys, pump_key, pump_waiter, arm, refill,
}
use lunibee.Sharding.Identify.Calls.{acquire, release, free, free_and_pump, update_key}
use lunibee.Sharding.Identify.History.{Event, acquires, releases, step, run, count_granted}
use lunibee.Sharding.Identify.Budget.{run-slots, slots}
use lunibee.Sharding.Identify.Service.{pump-AllServed, AllServed, armed_at}
use lunibee.Sharding.Identify.Spacing.{grant_times-Spaced, grant_times, Spaced}

-- Two shards to a key, two slots left until 10000.
abbrev coordinator : IdentifyCoordinator
coordinator = record {
  max_concurrency = 2;
  interval = 5000;
  hold_timeout = 60000;
  keys = [];
  remaining = some 2;
  total = some 1000;
  reset_at = some 10000;
  period = 20000;
  timer = none;
  next_handle = 0;
  next_ticket = 0;
  closed = false;
}

coordinator_is_new :
    new_coordinator 2 5000 60000 0
      (some (record { total = 1000; remaining = 2; reset_after = 10000; period = some 20000 }))
    ≡ some coordinator
unfolding new_coordinator
coordinator_is_new = refl

abbrev history : List Event
history = acquires 7 0 100 ∷ acquires 7 2 110 ∷ acquires 8 1 120 ∷ releases 7 0 300 ∷ []

history_grants : count_granted (run coordinator history).1 ≡ 2
unfolding run step count_granted acquire release free free_and_pump update_key pump pump_open rounds
    after_rounds pump_keys pump_key pump_waiter arm refill
history_grants = refl

run-slots_example :
    count_granted (run coordinator history).1 + slots (run coordinator history).0.remaining ≡ 2
run-slots_example =
    run-slots 10000 coordinator history refl refl
      (omega arith, (omega arith, (omega arith, (omega arith, tt))))

abbrev two_waiting : IdentifyCoordinator
two_waiting = record coordinator {
  keys =
      (
        0,
        record {
          queue = record { owner = 7; shard_id = 2; since = 110; ticket = 1 } ∷ [];
          holder = none;
          next_at = 5300;
        },
      )
      ∷ (
        1,
        record {
          queue = record { owner = 8; shard_id = 1; since = 120; ticket = 2 } ∷ [];
          holder = none;
          next_at = 6000;
        },
      )
      ∷ [];
}

pump-AllServed_example :
    let d = (pump two_waiting 5300).0 in AllServed 5300 d.remaining d.reset_at (armed_at d) d.keys
pump-AllServed_example = pump-AllServed two_waiting 5300 refl

grant_times-Spaced_example : Spaced 5000 none (grant_times 0 coordinator history)
unfolding new_coordinator
grant_times-Spaced_example =
    grant_times-Spaced 0 2 5000 60000 0
      (some (record { total = 1000; remaining = 2; reset_after = 10000; period = some 20000 }))
      coordinator history refl (omega arith, (omega arith, (omega arith, (omega arith, tt))))
