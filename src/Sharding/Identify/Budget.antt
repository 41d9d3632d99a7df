-- ===== src/Sharding/Identify/Budget.antt =====
-- The session budget of identify.ts: between two resets every grant takes one slot of it.
use lunibee.Base.{
  ℕ, ◌+◌, ◌%◌, ◌<◌, ◌∙◌, ◌≡◌, refl, true, Option, none, some, List, [], ◌∷◌, ◌++◌, arith, All,
  is_some, ap,
}
use lunibee.Sharding.Identify.State.{IdentifyCoordinator, Key, Waiter, Effect, released, expired}
use lunibee.Sharding.Identify.Pumping.{
  Round, pump_key, pump_waiter, pump_keys, pump_open, pump, rounds, after_rounds, arm, refill,
}
use lunibee.Sharding.Identify.Calls.{
  drop_keys, update_key, with_key, enqueue, free, acquire, release, drop, close, free_and_pump,
  hold_expires, timer_fires,
}
use lunibee.Sharding.Identify.History.{
  Event, acquires, releases, expires, drops, fires, pumps, closes, step, run, count_granted,
  count_granted-append,
}
use lunibee.Sharding.Identify.Ungranted.{drop_keys-ungranted, close_keys-ungranted}

abbrev pub slots : Option ℕ → ℕ
slots none = 0
slots (some n) = n

pump_key-slots :
    (max_concurrency now : ℕ) (reset_at : Option ℕ) (r : Round) (key : Key)
    → is_some r.remaining ≡ true
    → let p = pump_key max_concurrency now reset_at r key in
      (is_some p.0.remaining ≡ true) × (count_granted p.2 + slots p.0.remaining ≡ slots r.remaining)
unfolding pump_key pump_waiter count_granted
pump_key-slots max_concurrency now reset_at r key h = ground arith

pump_keys-slots :
    (max_concurrency now : ℕ) (reset_at : Option ℕ) (r : Round) (ks : List (ℕ × Key))
    → is_some r.remaining ≡ true
    → let p = pump_keys max_concurrency now reset_at r ks in
      (is_some p.0.remaining ≡ true) × (count_granted p.2 + slots p.0.remaining ≡ slots r.remaining)
unfolding pump_keys count_granted
pump_keys-slots max_concurrency now reset_at r [] h = (h, omega arith)
pump_keys-slots max_concurrency now reset_at r ((index, key) ∷ ks) h =
    let p = pump_key max_concurrency now reset_at r key in
    let q = pump_keys max_concurrency now reset_at p.0 ks in
    let (known, spent) = pump_key-slots max_concurrency now reset_at r key h in
    let (known', spent') = pump_keys-slots max_concurrency now reset_at p.0 ks known in
    (known', omega (arith, spent, spent', count_granted-append p.2 q.2))

-- `d` and `effects` are what a call leaves of `c` before its reset `t`.
Unrefilled : ℕ → IdentifyCoordinator → IdentifyCoordinator × List Effect → Type 0
Unrefilled t c (d, effects) =
    (d.reset_at ≡ some t)
    × (is_some d.remaining ≡ true)
    × (count_granted effects + slots d.remaining ≡ slots c.remaining)

refill-before :
    (c : IdentifyCoordinator) (now t : ℕ) → c.reset_at ≡ some t → now < t → refill c now ≡ c
unfolding refill
refill-before c now t h lt = ground arith

arm-fields :
    (c : IdentifyCoordinator) (at : Option ℕ)
    → ((arm c at).reset_at ≡ c.reset_at) × ((arm c at).remaining ≡ c.remaining)
unfolding arm
arm-fields c at = ground arith

module _ (c : IdentifyCoordinator) (now t : ℕ) (h : c.reset_at ≡ some t) (lt : now < t) where
  rounds-slots :
      is_some c.remaining ≡ true
      → (is_some (rounds c now).0.remaining ≡ true)
        × (count_granted (rounds c now).2 + slots (rounds c now).0.remaining ≡ slots c.remaining)
  unfolding rounds
  rounds-slots known =
      let d = refill c now in
      let same = refill-before c now t h lt in
      let start : Round = record {
        remaining = d.remaining;
        next = none;
        next_handle = d.next_handle;
      } in
      let (known', spent) =
        pump_keys-slots d.max_concurrency now d.reset_at start d.keys
          (ap (λ x. is_some x.remaining) same ∙ known) in
      (known', omega (arith, spent, ap (λ x. slots x.remaining) same))

  pump_open-Unrefilled : is_some c.remaining ≡ true → Unrefilled t c (pump_open c now)
  unfolding pump_open after_rounds Unrefilled
  pump_open-Unrefilled known =
      let p = rounds c now in
      let d = after_rounds (refill c now) p in
      let (known', spent) = rounds-slots known in
      let (reset, left) = arm-fields d p.0.next in
      let same = refill-before c now t h lt in
      (
        reset ∙ ap (λ x. x.reset_at) same ∙ h,
        ap is_some left ∙ known',
        omega (arith, spent, ap slots left),
      )

  pump-Unrefilled : is_some c.remaining ≡ true → Unrefilled t c (pump c now)
  unfolding pump Unrefilled count_granted
  pump-Unrefilled known = ground (arith, pump_open-Unrefilled known)

-- A call whose own effects grant nothing, and which pumps.
Unrefilled-prepend :
    (t : ℕ) (c : IdentifyCoordinator) (effects : List Effect)
    (p : IdentifyCoordinator × List Effect)
    → count_granted effects ≡ 0
    → Unrefilled t c p
    → Unrefilled t c (p.0, effects ++ p.1)
unfolding Unrefilled
Unrefilled-prepend t c effects p h (reset, known, spent) =
    (reset, known, omega (arith, h, spent, count_granted-append effects p.1))

-- When the event happens; closing reads no clock.
abbrev pub time_of : Event → ℕ
time_of (acquires owner shard_id now) = now
time_of (releases owner shard_id now) = now
time_of (expires index owner shard_id timer now) = now
time_of (drops owner now) = now
time_of (fires now) = now
time_of (pumps now) = now
time_of closes = 0

abbrev pub IsBefore : ℕ → Event → Type 0
IsBefore t e = time_of e < t

stays-Unrefilled :
    (t : ℕ) (c : IdentifyCoordinator)
    → c.reset_at ≡ some t
    → is_some c.remaining ≡ true
    → Unrefilled t c (c, [])
unfolding Unrefilled count_granted
stays-Unrefilled t c h known = (h, known, omega arith)

free_and_pump-Unrefilled :
    (t : ℕ) (c : IdentifyCoordinator) (index now : ℕ) (effect : Effect)
    → c.reset_at ≡ some t
    → is_some c.remaining ≡ true
    → now < t
    → count_granted (effect ∷ []) ≡ 0
    → Unrefilled t c (free_and_pump c index now effect)
unfolding free_and_pump
free_and_pump-Unrefilled t c index now effect h known lt free_of =
    let d = record c { keys = update_key index (free c.interval now) c.keys } in
    Unrefilled-prepend t c (effect ∷ []) (pump d now) free_of
      (unfold Unrefilled in pump-Unrefilled d now t h lt known)

acquire-Unrefilled :
    (t : ℕ) (c : IdentifyCoordinator) (owner shard_id now : ℕ)
    → c.reset_at ≡ some t
    → is_some c.remaining ≡ true
    → now < t
    → Unrefilled t c (acquire c owner shard_id now)
unfolding acquire Unrefilled count_granted
acquire-Unrefilled t c owner shard_id now h known lt =
    let index = shard_id % c.max_concurrency in
    let w : Waiter = record {
      owner = owner;
      shard_id = shard_id;
      since = now;
      ticket = c.next_ticket;
    } in
    let d = record c {
      keys = update_key index (enqueue w) (with_key index c.keys);
      next_ticket = c.next_ticket + 1;
    } in
    ground (arith, pump-Unrefilled d now t h lt known)

step-Unrefilled :
    (t : ℕ) (c : IdentifyCoordinator) (e : Event)
    → c.reset_at ≡ some t
    → is_some c.remaining ≡ true
    → IsBefore t e
    → Unrefilled t c (step c e)
unfolding step release hold_expires timer_fires drop close count_granted
step-Unrefilled t c (acquires owner shard_id now) h known lt =
    acquire-Unrefilled t c owner shard_id now h known lt
step-Unrefilled t c (releases owner shard_id now) h known lt =
    let index = shard_id % c.max_concurrency in
    ground (
      arith,
      free_and_pump-Unrefilled t c index now (released owner shard_id index) h known lt refl,
      stays-Unrefilled t c h known,
    )
step-Unrefilled t c (expires index owner shard_id timer now) h known lt = ground (
  arith,
  free_and_pump-Unrefilled t c index now (expired owner shard_id (shard_id % c.max_concurrency)) h
      known lt refl,
  stays-Unrefilled t c h known,
)
step-Unrefilled t c (drops owner now) h known lt =
    let p = drop_keys c.max_concurrency c.interval now owner c.keys in
    let d = record c { keys = p.0 } in
    Unrefilled-prepend t c p.1 (pump d now)
      (drop_keys-ungranted c.max_concurrency c.interval now owner c.keys)
      (unfold Unrefilled in pump-Unrefilled d now t h lt known)
step-Unrefilled t c (fires now) h known lt =
    unfold Unrefilled in pump-Unrefilled (record c { timer = none }) now t h lt known
step-Unrefilled t c (pumps now) h known lt = pump-Unrefilled c now t h lt known
step-Unrefilled t c closes h known lt =
    unfold Unrefilled in (h, known, omega (arith, close_keys-ungranted c.keys))

run-Unrefilled :
    (t : ℕ) (c : IdentifyCoordinator) (es : List Event)
    → c.reset_at ≡ some t
    → is_some c.remaining ≡ true
    → All (IsBefore t) es
    → Unrefilled t c (run c es)
unfolding run Unrefilled count_granted
run-Unrefilled t c [] h known before = (h, known, omega arith)
run-Unrefilled t c (e ∷ es) h known (lt, before) =
    let (d, effects) = step c e in
    let (h', known', spent) = step-Unrefilled t c e h known lt in
    let (h'', known'', spent') = run-Unrefilled t d es h' known' before in
    (h'', known'', omega (arith, spent, spent', count_granted-append effects (run d es).1))

-- For a coordinator that knows its session budget, in any history before the reset, the grants and
-- the slots left at the end are together the slots left at the start: no more than `remaining`
-- IDENTIFYs start before the reset.
pub run-slots :
    (t : ℕ) (c : IdentifyCoordinator) (es : List Event)
    → c.reset_at ≡ some t
    → is_some c.remaining ≡ true
    → All (IsBefore t) es
    → count_granted (run c es).1 + slots (run c es).0.remaining ≡ slots c.remaining
unfolding Unrefilled
run-slots t c es h known before = let (_, _, spent) = run-Unrefilled t c es h known before in spent
