-- ===== src/Sharding/Identify/BucketCalls.antt =====
-- The other calls of identify.ts on a bucket.
use lunibee.Base.{
  ℕ, ◌+◌, ◌%◌, ◌≤◌, ◌≡◌, inl, inr, refl, sym, Bool, true, false, Option, none, some, List, [], ◌∷◌,
  arith, ◌==◌, if◌then◌else◌, is_some, Bool-cases, subst,
}
use lunibee.Sharding.Identify.State.{IdentifyCoordinator, Key, Waiter, Effect, new_key, queued}
use lunibee.Sharding.Identify.Pumping.{pump}
use lunibee.Sharding.Identify.Calls.{
  find_key, update_key, with_key, enqueue, free, drop_key, drop_keys, acquire, drop, free_and_pump,
}
use lunibee.Sharding.Identify.Ungranted.{drop_keys-ungranted}
use lunibee.Sharding.Identify.Buckets.{count_on, Rests}
use lunibee.Sharding.Identify.Keys.{
  map_key, find-update_key, find-with_key, find-drop_keys, update_key-Filed, with_key-Filed,
  drop_keys-Filed, enqueue-filed, count_on-le_granted,
}
use lunibee.Sharding.Identify.Ready.{
  RestsIn, Ready, Follows, pump-Follows, Follows-prepend, RestsIn-later,
}

-- The key of a bucket after a request was filed under some bucket.
enqueue-RestsIn :
    (interval before : ℕ) (last : Option ℕ) (mine : Bool) (w : Waiter) (o : Option Key)
    → RestsIn interval last before o
    → RestsIn interval last before (
        if mine
        then map_key (enqueue w) (if is_some o then o else some new_key)
        else if is_some o
        then o
        else none)
enqueue-RestsIn interval before last true w none h =
    subst (λ x. Rests interval x before (enqueue w new_key)) (sym h) tt
enqueue-RestsIn interval before none true w (some key) h = tt
enqueue-RestsIn interval before (some t) true w (some key) h = h
enqueue-RestsIn interval before last false w none h = h
enqueue-RestsIn interval before last false w (some key) h = h

acquired_keys-RestsIn :
    (b index interval before : ℕ) (last : Option ℕ) (w : Waiter) (ks : List (ℕ × Key))
    → RestsIn interval last before (find_key b ks)
    → RestsIn interval last before (find_key b (update_key index (enqueue w) (with_key index ks)))
acquired_keys-RestsIn b index interval before last w ks h =
    rw (find-update_key b index (enqueue w) (with_key index ks), find-with_key b index ks)
      (elim (Bool-cases (index == b)) [
        | inl e ↦ rw e (enqueue-RestsIn interval before last true w (find_key b ks) h)
        | inr e ↦ rw e (enqueue-RestsIn interval before last false w (find_key b ks) h)
      ])

-- A key that is freed at `now` rests from then on.
free-Rests :
    (interval before now : ℕ) (last : Option ℕ) (key : Key)
    → before ≤ now
    → Rests interval last before key
    → Rests interval last now (free interval now key)
unfolding free
free-Rests interval before now none key le h = tt
free-Rests interval before now (some t) key le (rest, past) =
    (λ idle. omega (arith, past, le), omega (arith, past, le))

freed_keys-RestsIn :
    (b index interval before now : ℕ) (last : Option ℕ) (ks : List (ℕ × Key))
    → before ≤ now
    → RestsIn interval last before (find_key b ks)
    → RestsIn interval last now (find_key b (update_key index (free interval now) ks))
freed_keys-RestsIn b index interval before now last ks le h =
    rw (find-update_key b index (free interval now) ks) (elim (Bool-cases (index == b)) [
      | inl e ↦ rw e (freed (find_key b ks) h)
      | inr e ↦ rw e (RestsIn-later interval before now last (find_key b ks) le h)
    ])
  where
    freed :
        (o : Option Key)
        → RestsIn interval last before o
        → RestsIn interval last now (map_key (free interval now) o)
    freed none h = h
    freed (some key) h = free-Rests interval before now last key le h

drop_key-Rests :
    (interval before now owner : ℕ) (last : Option ℕ) (key : Key)
    → before ≤ now
    → Rests interval last before key
    → Rests interval last now (drop_key interval now owner key)
unfolding drop_key free
drop_key-Rests interval before now owner none key le h = tt
drop_key-Rests interval before now owner (some t) key le (rest, past) =
    (λ idle. ground (arith, rest, past, le), omega (arith, past, le))

dropped_keys-RestsIn :
    (b max_concurrency interval before now owner : ℕ) (last : Option ℕ) (ks : List (ℕ × Key))
    → before ≤ now
    → RestsIn interval last before (find_key b ks)
    → RestsIn interval last now (find_key b (drop_keys max_concurrency interval now owner ks).0)
dropped_keys-RestsIn b max_concurrency interval before now owner last ks le h =
    rw (find-drop_keys b max_concurrency interval now owner ks) (dropped_from (find_key b ks) h)
  where
    dropped_from :
        (o : Option Key)
        → RestsIn interval last before o
        → RestsIn interval last now (map_key (drop_key interval now owner) o)
    dropped_from none h = h
    dropped_from (some key) h = drop_key-Rests interval before now owner last key le h

pub acquire-Follows :
    (b before now owner shard_id : ℕ) (last : Option ℕ) (c : IdentifyCoordinator)
    → Ready b last before c
    → before ≤ now
    → Follows b c.interval last now (acquire c owner shard_id now)
unfolding acquire Ready
acquire-Follows b before now owner shard_id last c (open_still, filed, rests) le =
    let index = shard_id % c.max_concurrency in
    let w : Waiter = record {
      owner = owner;
      shard_id = shard_id;
      since = now;
      ticket = c.next_ticket;
    } in
    let d = record c {
      keys = update_key index (enqueue w) (with_key index c.keys);
      next_ticket = c.next_ticket + 1;
    } in
    let ready : Ready b last before d = (
      open_still,
      update_key-Filed c.max_concurrency index (enqueue w) (with_key index c.keys)
          (enqueue-filed c.max_concurrency index w refl)
          (with_key-Filed c.max_concurrency index c.keys filed),
      acquired_keys-RestsIn b index c.interval before last w c.keys rests,
    ) in
    let pumped =
      Follows-prepend b c.interval now last (queued owner shard_id index ∷ []) (pump d now)
        (unfold count_on in refl) (pump-Follows b before now last d ready le) in
    ground (arith, open_still, pumped)

pub free_and_pump-Follows :
    (b before now index : ℕ) (last : Option ℕ) (c : IdentifyCoordinator) (effect : Effect)
    → Ready b last before c
    → before ≤ now
    → count_on b (effect ∷ []) ≡ 0
    → Follows b c.interval last now (free_and_pump c index now effect)
unfolding free_and_pump Ready
free_and_pump-Follows b before now index last c effect (open_still, filed, rests) le quiet =
    let d = record c { keys = update_key index (free c.interval now) c.keys } in
    let ready : Ready b last now d = (
      open_still,
      update_key-Filed c.max_concurrency index (free c.interval now) c.keys
          (λ key h. unfold free in h) filed,
      freed_keys-RestsIn b index c.interval before now last c.keys le rests,
    ) in
    Follows-prepend b c.interval now last (effect ∷ []) (pump d now) quiet
      (pump-Follows b now now last d ready (omega arith))

pub drop-Follows :
    (b before now owner : ℕ) (last : Option ℕ) (c : IdentifyCoordinator)
    → Ready b last before c
    → before ≤ now
    → Follows b c.interval last now (drop c owner now)
unfolding drop Ready
drop-Follows b before now owner last c (open_still, filed, rests) le =
    let p = drop_keys c.max_concurrency c.interval now owner c.keys in
    let d = record c { keys = p.0 } in
    let ready : Ready b last now d = (
      open_still,
      drop_keys-Filed c.max_concurrency c.interval now owner c.keys filed,
      dropped_keys-RestsIn b c.max_concurrency c.interval before now owner last c.keys le rests,
    ) in
    let quiet : count_on b p.1 ≡ 0 = omega (
      arith,
      count_on-le_granted b p.1,
      drop_keys-ungranted c.max_concurrency c.interval now owner c.keys,
    ) in
    Follows-prepend b c.interval now last p.1 (pump d now) quiet
      (pump-Follows b now now last d ready (omega arith))
