-- ===== src/Sharding/Identify/Conservation.antt =====
-- How many requests of identify.ts wait and how many were settled.
use lunibee.Base.{ℕ, ◌+◌, ◌%◌, ◌≡◌, refl, none, List, [], ◌∷◌, arith, length}
use lunibee.Sharding.Identify.State.{
  IdentifyCoordinator, Key, Waiter, count_waiting, waiting, Effect, released, expired,
}
use lunibee.Sharding.Identify.Pumping.{pump}
use lunibee.Sharding.Identify.Calls.{
  drop_keys, update_key, with_key, enqueue, free, acquire, release, drop, close, close_keys,
  reject_all, free_and_pump, hold_expires, timer_fires,
}
use lunibee.Sharding.Identify.History.{
  count_settled, count_settled-append, Event, acquires, releases, expires, drops, fires, pumps,
  closes, step, run,
}
use lunibee.Sharding.Identify.Waiting.{
  pump-waiting, update_key-waiting_free, update_key-waiting_enqueue, with_key-waiting,
  drop_keys-waiting,
}

acquire-waiting :
    (c : IdentifyCoordinator) (owner shard_id now : ℕ)
    → waiting (acquire c owner shard_id now).0 + count_settled (acquire c owner shard_id now).1
      ≡ waiting c + 1
unfolding acquire count_settled
acquire-waiting c owner shard_id now =
    let index = shard_id % c.max_concurrency in
    let w : Waiter = record {
      owner = owner;
      shard_id = shard_id;
      since = now;
      ticket = c.next_ticket;
    } in
    let d = record c {
      keys = update_key index (enqueue w) (with_key index c.keys);
      next_ticket = c.next_ticket + 1;
    } in
    let (found, kept) = with_key-waiting index c.keys in
    ground (
      arith,
      pump-waiting d now,
      update_key-waiting_enqueue index w (with_key index c.keys) found,
      kept,
    )

free_and_pump-waiting :
    (c : IdentifyCoordinator) (index now : ℕ) (effect : Effect)
    → count_settled (effect ∷ []) ≡ 0
    → waiting (free_and_pump c index now effect).0
        + count_settled (free_and_pump c index now effect).1
      ≡ waiting c
unfolding free_and_pump
free_and_pump-waiting c index now effect h =
    let d = record c { keys = update_key index (free c.interval now) c.keys } in
    omega (
      arith,
      pump-waiting d now,
      update_key-waiting_free index c.interval now c.keys,
      count_settled-append (effect ∷ []) (pump d now).1,
    )

drop-waiting :
    (c : IdentifyCoordinator) (owner now : ℕ)
    → waiting (drop c owner now).0 + count_settled (drop c owner now).1 ≡ waiting c
unfolding drop
drop-waiting c owner now =
    let p = drop_keys c.max_concurrency c.interval now owner c.keys in
    let d = record c { keys = p.0 } in
    omega (
      arith,
      pump-waiting d now,
      drop_keys-waiting c.max_concurrency c.interval now owner c.keys,
      count_settled-append p.1 (pump d now).1,
    )

reject_all-settled : (ws : List Waiter) → count_settled (reject_all ws) ≡ length ws
unfolding reject_all count_settled
reject_all-settled [] = refl
reject_all-settled (w ∷ ws) = omega (arith, reject_all-settled ws)

close_keys-waiting :
    (ks : List (ℕ × Key))
    → (count_waiting (close_keys ks).0 ≡ 0) × (count_settled (close_keys ks).1 ≡ count_waiting ks)
unfolding close_keys count_settled
close_keys-waiting [] = (refl, refl)
close_keys-waiting ((index, key) ∷ ks) =
    let (none_left, settled) = close_keys-waiting ks in
    (
      omega (arith, none_left),
      omega (
        arith,
        settled,
        reject_all-settled key.queue,
        count_settled-append (reject_all key.queue) (close_keys ks).1,
      ),
    )

-- Closing leaves no request waiting.
close-waiting :
    (c : IdentifyCoordinator) → (waiting (close c).0 ≡ 0) × (count_settled (close c).1 ≡ waiting c)
unfolding close
close-waiting c = close_keys-waiting c.keys

-- How many requests an event makes.
abbrev requests : Event → ℕ
requests (acquires owner shard_id now) = 1
requests _ = 0

abbrev pub count_requests : List Event → ℕ
count_requests [] = 0
count_requests (e ∷ es) = requests e + count_requests es

step-waiting :
    (c : IdentifyCoordinator) (e : Event)
    → waiting (step c e).0 + count_settled (step c e).1 ≡ waiting c + requests e
unfolding step release hold_expires timer_fires count_settled
step-waiting c (acquires owner shard_id now) = acquire-waiting c owner shard_id now
step-waiting c (releases owner shard_id now) =
    let index = shard_id % c.max_concurrency in
    ground (arith, free_and_pump-waiting c index now (released owner shard_id index))
step-waiting c (expires index owner shard_id timer now) = ground (
  arith,
  free_and_pump-waiting c index now (expired owner shard_id (shard_id % c.max_concurrency)),
)
step-waiting c (drops owner now) = omega (arith, drop-waiting c owner now)
step-waiting c (fires now) = omega (arith, pump-waiting (record c { timer = none }) now)
step-waiting c (pumps now) = omega (arith, pump-waiting c now)
step-waiting c closes =
    let (none_left, settled) = close-waiting c in omega (arith, none_left, settled)

-- Over any history the requests waiting at the start and those made in it are as many as those
-- waiting at the end and the promises resolved or rejected.
pub run-waiting :
    (c : IdentifyCoordinator) (es : List Event)
    → waiting (run c es).0 + count_settled (run c es).1 ≡ waiting c + count_requests es
unfolding run count_settled
run-waiting c [] = omega arith
run-waiting c (e ∷ es) =
    let (d, effects) = step c e in
    omega (arith, step-waiting c e, run-waiting d es, count_settled-append effects (run d es).1)
