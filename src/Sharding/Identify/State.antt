-- ===== src/Sharding/Identify/State.antt =====
-- The state of `IdentifyCoordinator` in packages/sharding/src/identify.ts, its constructor and its
-- counters. The clock is the argument `now`. The calls of a waiter's `grant` and `fail`, of
-- `onEvent` and of `onBudgetWait` are effects; a waiter's promise is its ticket, and a timer its
-- handle. `Number.POSITIVE_INFINITY` is `none`.
use lunibee.Base.{
  ℕ, suc, ◌+◌, ◌*◌, Bool, false, ◌||◌, Option, none, some, List, [], ◌∷◌, ◌==◌, if◌then◌else◌,
  is_some, length, ℤ,
}

pub record Waiter : Type 0 where
  pub owner : ℕ
  pub shard_id : ℕ
  pub since : ℕ
  pub ticket : ℕ

pub record Holder : Type 0 where
  pub owner : ℕ
  pub shard_id : ℕ
  pub timer : ℕ

pub record Key : Type 0 where
  pub queue : List Waiter
  pub holder : Option Holder
  pub next_at : ℕ

abbrev pub new_key : Key
new_key = record { queue = []; holder = none; next_at = 0 }

-- `IdentifyEvent` by its type, with the owner, the shard and the bucket; a grant also with how
-- long the request waited.
pub data Effect : Type 0 where
  queued released expired dropped : ℕ → ℕ → ℕ → Effect
  granted : ℕ → ℕ → ℕ → ℤ → Effect
  resolves rejects : ℕ → Effect
  budget_waits : ℕ → ℤ → Effect

-- The fields of the class. `timer` is the handle and the time of the armed timer.
pub record IdentifyCoordinator : Type 0 where
  pub max_concurrency : ℕ
  pub interval : ℕ
  pub hold_timeout : ℕ
  pub keys : List (ℕ × Key)
  pub remaining : Option ℕ
  pub total : Option ℕ
  pub reset_at : Option ℕ
  pub period : ℕ
  pub timer : Option (ℕ × ℕ)
  pub next_handle : ℕ
  pub next_ticket : ℕ
  pub closed : Bool

pub record IdentifyBudget : Type 0 where
  pub total : ℕ
  pub remaining : ℕ
  pub reset_after : ℕ
  pub period : Option ℕ

abbrev default_period : ℕ
default_period = 24 * 60 * 60 * 1000

abbrev period_of : IdentifyBudget → ℕ
period_of b = elim b.period [ none ↦ default_period | some p ↦ p ]

abbrev unbudgeted : ℕ → ℕ → ℕ → IdentifyCoordinator
unbudgeted max_concurrency interval hold_timeout = record {
  max_concurrency = max_concurrency;
  interval = interval;
  hold_timeout = hold_timeout;
  keys = [];
  remaining = none;
  total = none;
  reset_at = none;
  period = default_period;
  timer = none;
  next_handle = 0;
  next_ticket = 0;
  closed = false;
}

with_budget : IdentifyCoordinator → ℕ → Option IdentifyBudget → Option IdentifyCoordinator
with_budget c now none = some c
with_budget c now (some b) =
    if period_of b == 0
    then none
    else some (record c {
      total = some b.total;
      remaining = some b.remaining;
      reset_at = some (now + b.reset_after);
      period = period_of b;
    })

-- The constructor; `none` stands for its RangeErrors.
unfoldable pub new_coordinator : ℕ → ℕ → ℕ → ℕ → Option IdentifyBudget → Option IdentifyCoordinator
unfolding with_budget
new_coordinator max_concurrency interval hold_timeout now budget =
    if max_concurrency == 0 || hold_timeout == 0
    then none
    else with_budget (unbudgeted max_concurrency interval hold_timeout) now budget

abbrev pub count_waiting : List (ℕ × Key) → ℕ
count_waiting [] = 0
count_waiting ((index, key) ∷ ks) = length key.queue + count_waiting ks

abbrev pub count_holding : List (ℕ × Key) → ℕ
count_holding [] = 0
count_holding ((index, key) ∷ ks) =
    let rest = count_holding ks in if is_some key.holder then suc rest else rest

abbrev pub waiting : IdentifyCoordinator → ℕ
waiting c = count_waiting c.keys

abbrev pub holding : IdentifyCoordinator → ℕ
holding c = count_holding c.keys
