-- ===== src/Sharding/Identify/Pumping.antt =====
-- `pump` and `#arm` of packages/sharding/src/identify.ts.
use lunibee.Base.{
  ℕ, sub_ℕ, zero, suc, ◌+◌, ◌-◌, ◌%◌, Bool, false, Option, none, some, List, [], ◌∷◌, ◌++◌, leb,
  ltb, ◌==◌, if◌then◌else◌, min, ℤ, pos, sub_ℕ,
}
use lunibee.Sharding.Identify.State.{
  IdentifyCoordinator, Key, Waiter, Holder, Effect, granted, resolves, budget_waits,
}

-- `while (now >= this.#resetAt) this.#resetAt += this.#period`; one round of fuel for each
-- millisecond that the reset lies back is enough.
unfoldable pub advance_reset : ℕ → ℕ → ℕ → ℕ → ℕ
advance_reset zero now period reset_at = reset_at
advance_reset (suc fuel) now period reset_at =
    let later = advance_reset fuel now period (reset_at + period) in
    if leb reset_at now then later else reset_at

refill_budget : IdentifyCoordinator → ℕ → Option ℕ → Option ℕ → IdentifyCoordinator
refill_budget c now (some total) (some reset_at) =
    if leb reset_at now
    then record c {
      remaining = some total;
      reset_at = some (advance_reset (suc (now - reset_at)) now c.period reset_at);
    }
    else c
refill_budget c now _ _ = c

-- The first part of `pump`.
unfoldable pub refill : IdentifyCoordinator → ℕ → IdentifyCoordinator
unfolding refill_budget
refill c now = refill_budget c now c.total c.reset_at

-- The lesser of two times.
abbrev pub earlier : Option ℕ → Option ℕ → Option ℕ
earlier none t = t
earlier (some s) none = some s
earlier (some s) (some t) = some (min s t)

-- What the loop of `pump` carries from key to key.
pub record Round : Type 0 where
  pub remaining : Option ℕ
  pub next : Option ℕ
  pub next_handle : ℕ

abbrev pub is_spent : Option ℕ → Bool
is_spent none = false
is_spent (some n) = n == 0

abbrev pub take_slot : Option ℕ → Option ℕ
take_slot none = none
take_slot (some n) = some (n - 1)

-- `this.#resetAt - now`; the reset is known whenever the budget is.
abbrev pub wait_for : Option ℕ → ℕ → ℤ
wait_for none now = pos 0
wait_for (some t) now = sub_ℕ t now

module _ (max_concurrency now : ℕ) (reset_at : Option ℕ) where
  -- One key of the loop, past the test for an empty queue.
  unfoldable pub pump_waiter : Round → Key → Waiter → List Waiter → Round × Key × List Effect
  pump_waiter r key w rest =
      if ltb now key.next_at
      then (record r { next = earlier r.next (some key.next_at) }, key, [])
      else if is_spent r.remaining
      then (
        record r { next = earlier r.next reset_at },
        key,
        budget_waits w.shard_id (wait_for reset_at now) ∷ [],
      )
      else (
        record r { remaining = take_slot r.remaining; next_handle = r.next_handle + 1 },
        record key {
          queue = rest;
          holder = some (record { owner = w.owner; shard_id = w.shard_id; timer = r.next_handle });
        },
        resolves w.ticket
            ∷ granted w.owner w.shard_id (w.shard_id % max_concurrency) (sub_ℕ now w.since)
            ∷ [],
      )

  pump_queue : Round → Key → Option Holder → List Waiter → Round × Key × List Effect
  pump_queue r key (some holder) queue = (r, key, [])
  pump_queue r key none [] = (r, key, [])
  pump_queue r key none (w ∷ rest) = pump_waiter r key w rest

  unfoldable pub pump_key : Round → Key → Round × Key × List Effect
  unfolding pump_queue
  pump_key r key = pump_queue r key key.holder key.queue

  unfoldable pub pump_keys : Round → List (ℕ × Key) → Round × List (ℕ × Key) × List Effect
  pump_keys r [] = (r, [], [])
  pump_keys r ((index, key) ∷ ks) =
      let (r', key', effects) = pump_key r key in
      let (r'', ks', rest) = pump_keys r' ks in (r'', (index, key') ∷ ks', effects ++ rest)

abbrev is_armed_at : Option (ℕ × ℕ) → ℕ → Bool
is_armed_at none at = false
is_armed_at (some (handle, t)) at = at == t

arm_at : IdentifyCoordinator → Option ℕ → IdentifyCoordinator
arm_at c none = record c { timer = none }
arm_at c (some at) =
    if is_armed_at c.timer at
    then c
    else record c { timer = some (c.next_handle, at); next_handle = c.next_handle + 1 }

-- `#arm`
unfoldable pub arm : IdentifyCoordinator → Option ℕ → IdentifyCoordinator
unfolding arm_at
arm c at = arm_at c at

-- The loop of `pump`, after the budget was refilled.
unfoldable pub rounds : IdentifyCoordinator → ℕ → Round × List (ℕ × Key) × List Effect
rounds c now =
    let d = refill c now in
    let start : Round = record {
      remaining = d.remaining;
      next = none;
      next_handle = d.next_handle;
    } in
    pump_keys d.max_concurrency now d.reset_at start d.keys

-- The coordinator with what the loop leaves.
unfoldable pub after_rounds :
    IdentifyCoordinator → Round × List (ℕ × Key) × List Effect → IdentifyCoordinator
after_rounds c (r, keys, effects) = record c {
  keys = keys;
  remaining = r.remaining;
  next_handle = r.next_handle;
}

unfoldable pub pump_open : IdentifyCoordinator → ℕ → IdentifyCoordinator × List Effect
pump_open c now = let p = rounds c now in (arm (after_rounds (refill c now) p) p.0.next, p.2)

unfoldable pub pump : IdentifyCoordinator → ℕ → IdentifyCoordinator × List Effect
pump c now = if c.closed then (c, []) else pump_open c now
