-- ===== src/Sharding/Identify/Waiting.antt =====
-- How each part of a call of identify.ts changes the number of waiting requests.
use lunibee.Base.{
  ap, ℕ, ◌+◌, ◌≡◌, refl, true, not, Option, none, List, [], ◌∷◌, ◌++◌, arith, ◌==◌, is_some, length,
  length-append, keep,
}
use lunibee.Sharding.Identify.State.{
  IdentifyCoordinator, Key, Waiter, count_waiting, waiting, new_key,
}
use lunibee.Sharding.Identify.Pumping.{
  Round, pump_key, pump_waiter, pump_keys, pump_open, pump, rounds, after_rounds, arm, refill,
}
use lunibee.Sharding.Identify.Calls.{
  drop_keys, drop_key, drop_effects, update_key, with_key, find_key, enqueue, free,
}
use lunibee.Sharding.Identify.History.{count_settled, count_settled-append}

pump_key-waiting :
    (max_concurrency now : ℕ) (reset_at : Option ℕ) (r : Round) (key : Key)
    → let p = pump_key max_concurrency now reset_at r key in
      length p.1.queue + count_settled p.2 ≡ length key.queue
unfolding pump_key pump_waiter count_settled
pump_key-waiting max_concurrency now reset_at r key = ground arith

pump_keys-waiting :
    (max_concurrency now : ℕ) (reset_at : Option ℕ) (r : Round) (ks : List (ℕ × Key))
    → let p = pump_keys max_concurrency now reset_at r ks in
      count_waiting p.1 + count_settled p.2 ≡ count_waiting ks
unfolding pump_keys count_settled
pump_keys-waiting max_concurrency now reset_at r [] = omega arith
pump_keys-waiting max_concurrency now reset_at r ((index, key) ∷ ks) =
    let p = pump_key max_concurrency now reset_at r key in
    let q = pump_keys max_concurrency now reset_at p.0 ks in
    omega (
      arith,
      pump_key-waiting max_concurrency now reset_at r key,
      pump_keys-waiting max_concurrency now reset_at p.0 ks,
      count_settled-append p.2 q.2,
    )

refill-keys : (c : IdentifyCoordinator) (now : ℕ) → (refill c now).keys ≡ c.keys
unfolding refill
refill-keys c now = ground arith

arm-keys : (c : IdentifyCoordinator) (at : Option ℕ) → (arm c at).keys ≡ c.keys
unfolding arm
arm-keys c at = ground arith

rounds-waiting :
    (c : IdentifyCoordinator) (now : ℕ)
    → count_waiting (rounds c now).1 + count_settled (rounds c now).2 ≡ waiting c
unfolding rounds
rounds-waiting c now =
    let d = refill c now in
    let start : Round = record {
      remaining = d.remaining;
      next = none;
      next_handle = d.next_handle;
    } in
    omega (
      arith,
      ap count_waiting (refill-keys c now),
      pump_keys-waiting d.max_concurrency now d.reset_at start d.keys,
    )

pub pump_open-keys :
    (c : IdentifyCoordinator) (now : ℕ) → (pump_open c now).0.keys ≡ (rounds c now).1
unfolding pump_open after_rounds
pump_open-keys c now = arm-keys _ (rounds c now).0.next

pub pump_open-effects : (c : IdentifyCoordinator) (now : ℕ) → (pump_open c now).1 ≡ (rounds c now).2
unfolding pump_open
pump_open-effects c now = refl

pump_open-waiting :
    (c : IdentifyCoordinator) (now : ℕ)
    → waiting (pump_open c now).0 + count_settled (pump_open c now).1 ≡ waiting c
pump_open-waiting c now = omega (
  arith,
  ap count_waiting (pump_open-keys c now),
  ap count_settled (pump_open-effects c now),
  rounds-waiting c now,
)

pub pump-waiting :
    (c : IdentifyCoordinator) (now : ℕ)
    → waiting (pump c now).0 + count_settled (pump c now).1 ≡ waiting c
unfolding pump count_settled
pump-waiting c now = ground (arith, pump_open-waiting c now)

pub update_key-waiting_free :
    (index interval now : ℕ) (ks : List (ℕ × Key))
    → count_waiting (update_key index (free interval now) ks) ≡ count_waiting ks
unfolding update_key free
update_key-waiting_free index interval now [] = refl
update_key-waiting_free index interval now ((i, key) ∷ ks) =
    ground (arith, update_key-waiting_free index interval now ks)

pub update_key-waiting_enqueue :
    (index : ℕ) (w : Waiter) (ks : List (ℕ × Key))
    → is_some (find_key index ks) ≡ true
    → count_waiting (update_key index (enqueue w) ks) ≡ count_waiting ks + 1
unfolding update_key
update_key-waiting_enqueue index w [] h = cc
update_key-waiting_enqueue index w ((i, key) ∷ ks) h =
    ground (arith, update_key-waiting_enqueue index w ks, length-append key.queue (w ∷ []))

find_key-concat :
    (index : ℕ) (ks : List (ℕ × Key))
    → is_some (find_key index (ks ++ (index, new_key) ∷ [])) ≡ true
find_key-concat index [] = ground arith
find_key-concat index ((i, key) ∷ ks) = ground (arith, find_key-concat index ks)

count_waiting-concat :
    (index : ℕ) (ks : List (ℕ × Key))
    → count_waiting (ks ++ (index, new_key) ∷ []) ≡ count_waiting ks
count_waiting-concat index [] = omega arith
count_waiting-concat index ((i, key) ∷ ks) = omega (arith, count_waiting-concat index ks)

pub with_key-waiting :
    (index : ℕ) (ks : List (ℕ × Key))
    → (is_some (find_key index (with_key index ks)) ≡ true)
      × (count_waiting (with_key index ks) ≡ count_waiting ks)
with_key-waiting index ks = ground (arith, find_key-concat index ks, count_waiting-concat index ks)

drop_effects-settled :
    (max_concurrency owner : ℕ) (ws : List Waiter)
    → length (keep (λ w. not (w.owner == owner)) ws)
        + count_settled (drop_effects max_concurrency owner ws)
      ≡ length ws
unfolding drop_effects count_settled
drop_effects-settled max_concurrency owner [] = omega arith
drop_effects-settled max_concurrency owner (w ∷ ws) =
    ground (arith, drop_effects-settled max_concurrency owner ws)

pub drop_key-queue :
    (interval now owner : ℕ) (key : Key)
    → (drop_key interval now owner key).queue ≡ keep (λ w. not (w.owner == owner)) key.queue
unfolding drop_key
drop_key-queue interval now owner key = ground arith

pub drop_keys-waiting :
    (max_concurrency interval now owner : ℕ) (ks : List (ℕ × Key))
    → let p = drop_keys max_concurrency interval now owner ks in
      count_waiting p.0 + count_settled p.1 ≡ count_waiting ks
unfolding drop_keys count_settled
drop_keys-waiting max_concurrency interval now owner [] = omega arith
drop_keys-waiting max_concurrency interval now owner ((index, key) ∷ ks) =
    let p = drop_keys max_concurrency interval now owner ks in
    omega (
      arith,
      ap length (drop_key-queue interval now owner key),
      drop_effects-settled max_concurrency owner key.queue,
      drop_keys-waiting max_concurrency interval now owner ks,
      count_settled-append (drop_effects max_concurrency owner key.queue) p.1,
    )
