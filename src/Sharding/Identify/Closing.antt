-- ===== src/Sharding/Identify/Closing.antt =====
-- A closed coordinator of identify.ts stays closed, grants nothing and keeps nobody waiting.
use lunibee.Base.{ℕ, ◌≡◌, refl, true, List, [], ◌∷◌, arith, none}
use lunibee.Sharding.Identify.State.{IdentifyCoordinator, Effect}
use lunibee.Sharding.Identify.Pumping.{pump}
use lunibee.Sharding.Identify.Calls.{
  drop_keys, acquire, release, drop, close, free_and_pump, hold_expires, timer_fires,
}
use lunibee.Sharding.Identify.History.{
  Event, acquires, releases, expires, drops, fires, pumps, closes, step, run, count_granted,
  count_granted-append,
}
use lunibee.Sharding.Identify.Ungranted.{drop_keys-ungranted, close_keys-ungranted}

-- What a call leaves of a closed coordinator: still closed, and no grant among its effects.
abbrev pub StaysClosed : IdentifyCoordinator × List Effect → Type 0
StaysClosed (d, effects) = (d.closed ≡ true) × (count_granted effects ≡ 0)

pump-StaysClosed : (c : IdentifyCoordinator) (now : ℕ) → c.closed ≡ true → StaysClosed (pump c now)
unfolding pump count_granted
pump-StaysClosed c now h = ground arith

drop-StaysClosed :
    (c : IdentifyCoordinator) (owner now : ℕ) → c.closed ≡ true → StaysClosed (drop c owner now)
unfolding drop
drop-StaysClosed c owner now h =
    let p = drop_keys c.max_concurrency c.interval now owner c.keys in
    let (still, none_granted) = pump-StaysClosed (record c { keys = p.0 }) now h in
    (
      still,
      omega (
        arith,
        none_granted,
        drop_keys-ungranted c.max_concurrency c.interval now owner c.keys,
        count_granted-append p.1 (pump (record c { keys = p.0 }) now).1,
      ),
    )

pub step-StaysClosed :
    (c : IdentifyCoordinator) (e : Event) → c.closed ≡ true → StaysClosed (step c e)
unfolding step acquire release hold_expires timer_fires close pump free_and_pump count_granted
step-StaysClosed c (acquires owner shard_id now) h = ground arith
step-StaysClosed c (releases owner shard_id now) h = ground arith
step-StaysClosed c (expires index owner shard_id timer now) h = ground arith
step-StaysClosed c (drops owner now) h = drop-StaysClosed c owner now h
step-StaysClosed c (fires now) h = pump-StaysClosed (record c { timer = none }) now h
step-StaysClosed c (pumps now) h = pump-StaysClosed c now h
step-StaysClosed c closes h = (refl, close_keys-ungranted c.keys)

run-StaysClosed :
    (c : IdentifyCoordinator) (es : List Event) → c.closed ≡ true → StaysClosed (run c es)
unfolding run count_granted
run-StaysClosed c [] h = (h, refl)
run-StaysClosed c (e ∷ es) h =
    let (d, effects) = step c e in
    let (still, none_granted) = step-StaysClosed c e h in
    let (still', none_granted') = run-StaysClosed d es still in
    (still', omega (arith, none_granted, none_granted', count_granted-append effects (run d es).1))

-- After `close`, whatever is called later and whichever timer still fires, no slot is granted.
pub closed_grants_nothing :
    (c : IdentifyCoordinator) (es : List Event) → count_granted (run (close c).0 es).1 ≡ 0
unfolding close
closed_grants_nothing c es = (run-StaysClosed (close c).0 es refl).1
