-- ===== src/Sharding/Identify/Calls.antt =====
-- `acquire`, `release`, `drop`, `close` and the timer callbacks of packages/sharding/src/identify.ts.
use lunibee.Base.{
  ℕ, ◌+◌, ◌%◌, Bool, true, false, not, ◌&&◌, Option, none, some, List, [], ◌∷◌, ◌++◌, ◌==◌,
  if◌then◌else◌, is_some, keep,
}
use lunibee.Sharding.Identify.Pumping.{pump}
use lunibee.Sharding.Identify.State.{
  IdentifyCoordinator, Key, Waiter, Holder, Effect, new_key, queued, released, expired, dropped,
  rejects,
}

abbrev pub find_key : ℕ → List (ℕ × Key) → Option Key
find_key index [] = none
find_key index ((i, key) ∷ ks) = if i == index then some key else find_key index ks

-- Applies a change to the key of an index, which the map holds.
unfoldable pub update_key : ℕ → (Key → Key) → List (ℕ × Key) → List (ℕ × Key)
update_key index f [] = []
update_key index f ((i, key) ∷ ks) =
    if i == index then (i, f key) ∷ ks else (i, key) ∷ update_key index f ks

-- The keys with one for the index, new ones last.
abbrev pub with_key : ℕ → List (ℕ × Key) → List (ℕ × Key)
with_key index ks = if is_some (find_key index ks) then ks else ks ++ (index, new_key) ∷ []

abbrev pub enqueue : Waiter → Key → Key
enqueue w key = record key { queue = key.queue ++ w ∷ [] }

-- The first coordinate is the state; a rejected promise is the effect of its ticket.
unfoldable pub acquire : IdentifyCoordinator → ℕ → ℕ → ℕ → IdentifyCoordinator × List Effect
acquire c owner shard_id now =
    if c.closed
    then (record c { next_ticket = c.next_ticket + 1 }, rejects c.next_ticket ∷ [])
    else let index = shard_id % c.max_concurrency in
      let w : Waiter = record {
        owner = owner;
        shard_id = shard_id;
        since = now;
        ticket = c.next_ticket;
      } in
      let (d, effects) =
        pump
          (record c {
            keys = update_key index (enqueue w) (with_key index c.keys);
            next_ticket = c.next_ticket + 1;
          })
          now in
      (d, queued owner shard_id index ∷ effects)

-- `#free`; its timer is no longer armed.
unfoldable pub free : ℕ → ℕ → Key → Key
free interval now key = record key { holder = none; next_at = now + interval }

-- Frees the key of an index, reports, and pumps.
unfoldable pub free_and_pump :
    IdentifyCoordinator → ℕ → ℕ → Effect → IdentifyCoordinator × List Effect
free_and_pump c index now effect =
    let (d, effects) =
      pump (record c { keys = update_key index (free c.interval now) c.keys }) now in
    (d, effect ∷ effects)

abbrev pub holds : Option Holder → ℕ → ℕ → Bool
holds none owner shard_id = false
holds (some h) owner shard_id = h.owner == owner && h.shard_id == shard_id

abbrev pub holder_of : Option Key → Option Holder
holder_of none = none
holder_of (some key) = key.holder

unfoldable pub release : IdentifyCoordinator → ℕ → ℕ → ℕ → IdentifyCoordinator × List Effect
unfolding free_and_pump
release c owner shard_id now =
    let index = shard_id % c.max_concurrency in
    if holds (holder_of (find_key index c.keys)) owner shard_id
    then free_and_pump c index now (released owner shard_id index)
    else (c, [])

abbrev pub is_holder : Option Holder → ℕ → Bool
is_holder none timer = false
is_holder (some h) timer = h.timer == timer

-- The timeout that a grant to `owner` and `shard_id` armed with this handle on the key of an index.
unfoldable pub hold_expires :
    IdentifyCoordinator → ℕ → ℕ → ℕ → ℕ → ℕ → IdentifyCoordinator × List Effect
unfolding free_and_pump
hold_expires c index owner shard_id timer now =
    if is_holder (holder_of (find_key index c.keys)) timer
    then free_and_pump c index now (expired owner shard_id (shard_id % c.max_concurrency))
    else (c, [])

-- The timer of `#arm` fires.
unfoldable pub timer_fires : IdentifyCoordinator → ℕ → IdentifyCoordinator × List Effect
timer_fires c now = pump (record c { timer = none }) now

abbrev owned_by : ℕ → Waiter → Bool
owned_by owner w = w.owner == owner

unfoldable pub drop_effects : ℕ → ℕ → List Waiter → List Effect
drop_effects max_concurrency owner [] = []
drop_effects max_concurrency owner (w ∷ ws) =
    let rest = drop_effects max_concurrency owner ws in
    if owned_by owner w
    then rejects w.ticket ∷ dropped owner w.shard_id (w.shard_id % max_concurrency) ∷ rest
    else rest

abbrev holder_owned_by : ℕ → Option Holder → Bool
holder_owned_by owner none = false
holder_owned_by owner (some h) = h.owner == owner

unfoldable pub drop_key : ℕ → ℕ → ℕ → Key → Key
unfolding free
drop_key interval now owner key =
    let kept = record key { queue = keep (λ w. not (owned_by owner w)) key.queue } in
    if holder_owned_by owner key.holder then free interval now kept else kept

unfoldable pub drop_keys : ℕ → ℕ → ℕ → ℕ → List (ℕ × Key) → List (ℕ × Key) × List Effect
drop_keys max_concurrency interval now owner [] = ([], [])
drop_keys max_concurrency interval now owner ((index, key) ∷ ks) =
    let (ks', rest) = drop_keys max_concurrency interval now owner ks in
    (
      (index, drop_key interval now owner key) ∷ ks',
      drop_effects max_concurrency owner key.queue ++ rest,
    )

unfoldable pub drop : IdentifyCoordinator → ℕ → ℕ → IdentifyCoordinator × List Effect
drop c owner now =
    let (keys, effects) = drop_keys c.max_concurrency c.interval now owner c.keys in
    let (d, rest) = pump (record c { keys = keys }) now in (d, effects ++ rest)

unfoldable pub reject_all : List Waiter → List Effect
reject_all [] = []
reject_all (w ∷ ws) = rejects w.ticket ∷ reject_all ws

unfoldable pub close_keys : List (ℕ × Key) → List (ℕ × Key) × List Effect
unfolding reject_all
close_keys [] = ([], [])
close_keys ((index, key) ∷ ks) =
    let (ks', rest) = close_keys ks in
    ((index, record key { queue = []; holder = none }) ∷ ks', reject_all key.queue ++ rest)

unfoldable pub close : IdentifyCoordinator → IdentifyCoordinator × List Effect
close c =
    let (keys, effects) = close_keys c.keys in
    (record c { closed = true; timer = none; keys = keys }, effects)
