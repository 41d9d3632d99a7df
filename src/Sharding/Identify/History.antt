-- ===== src/Sharding/Identify/History.antt =====
-- Histories of an `IdentifyCoordinator` of packages/sharding/src/identify.ts.
use lunibee.Base.{ℕ, ◌+◌, List, [], ◌∷◌, ◌++◌, ◌≡◌, arith}
use lunibee.Sharding.Identify.State.{IdentifyCoordinator, Effect, granted, resolves, rejects}
use lunibee.Sharding.Identify.Pumping.{pump}
use lunibee.Sharding.Identify.Calls.{acquire, release, hold_expires, timer_fires, drop, close}

-- A call of a method, or a timer that fires, with the time at which it does.
pub data Event : Type 0 where
  acquires releases : ℕ → ℕ → ℕ → Event
  expires : ℕ → ℕ → ℕ → ℕ → ℕ → Event
  drops : ℕ → ℕ → Event
  fires pumps : ℕ → Event
  closes : Event

unfoldable pub step : IdentifyCoordinator → Event → IdentifyCoordinator × List Effect
step c (acquires owner shard_id now) = acquire c owner shard_id now
step c (releases owner shard_id now) = release c owner shard_id now
step c (expires index owner shard_id timer now) = hold_expires c index owner shard_id timer now
step c (drops owner now) = drop c owner now
step c (fires now) = timer_fires c now
step c (pumps now) = pump c now
step c closes = close c

unfoldable pub run : IdentifyCoordinator → List Event → IdentifyCoordinator × List Effect
run c [] = (c, [])
run c (e ∷ es) = let (d, effects) = step c e in let (d', rest) = run d es in (d', effects ++ rest)

-- Promises that were resolved or rejected.
unfoldable pub count_settled : List Effect → ℕ
count_settled [] = 0
count_settled (resolves ticket ∷ es) = count_settled es + 1
count_settled (rejects ticket ∷ es) = count_settled es + 1
count_settled (_ ∷ es) = count_settled es

unfoldable pub count_granted : List Effect → ℕ
count_granted [] = 0
count_granted (granted owner shard_id bucket waited ∷ es) = count_granted es + 1
count_granted (_ ∷ es) = count_granted es

pub count_settled-append :
    (xs ys : List Effect) → count_settled (xs ++ ys) ≡ count_settled xs + count_settled ys
unfolding count_settled
count_settled-append [] ys = omega arith
count_settled-append (resolves ticket ∷ xs) ys = omega (arith, count_settled-append xs ys)
count_settled-append (rejects ticket ∷ xs) ys = omega (arith, count_settled-append xs ys)
count_settled-append (_ ∷ xs) ys = count_settled-append xs ys

pub count_granted-append :
    (xs ys : List Effect) → count_granted (xs ++ ys) ≡ count_granted xs + count_granted ys
unfolding count_granted
count_granted-append [] ys = omega arith
count_granted-append (granted owner shard_id bucket waited ∷ xs) ys =
    omega (arith, count_granted-append xs ys)
count_granted-append (_ ∷ xs) ys = count_granted-append xs ys
