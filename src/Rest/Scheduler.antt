-- ===== src/Rest/Scheduler.antt =====
-- packages/rest/src/scheduler.ts: `run` of `RequestScheduler`, which serialises work per bucket key.
-- A gate, the promise of a call of `run`, is the number of its job. The signal that aborts a wait,
-- the start of a task once the gate ahead has opened, and the end of a task are events.
pub mod Aborts
pub mod Exclusion
pub mod Steps
pub mod Queues
pub mod Histories
mod Tests
use lunibee.Base.{
  ℕ, suc, ◌+◌, ◌-◌, Bool, true, false, not, ◌&&◌, ◌||◌, Option, none, some, List, [], ◌∷◌, ◌==◌,
  leb, if◌then◌else◌, Text, text_eq,
}

-- The variables of one call of `run`.
pub record Job : Type 0 where
  pub key : Text
  pub previous : Option ℕ
  pub started : Bool
  pub released : Bool

-- `jobs` holds the newest call first. `none` for a limit is no limit.
pub record RequestScheduler : Type 0 where
  pub queues : List (Text × ℕ)
  pub waiting : List (Text × ℕ)
  pub queued : ℕ
  pub max_queued : Option ℕ
  pub max_queued_per_bucket : Option ℕ
  pub jobs : List (ℕ × Job)
  pub next_job : ℕ

abbrev pub new_scheduler : Option ℕ → Option ℕ → RequestScheduler
new_scheduler max_queued max_queued_per_bucket = record {
  queues = [];
  waiting = [];
  queued = 0;
  max_queued = max_queued;
  max_queued_per_bucket = max_queued_per_bucket;
  jobs = [];
  next_job = 0;
}

abbrev pub lookup : Text → List (Text × ℕ) → Option ℕ
lookup key [] = none
lookup key ((k, n) ∷ xs) = if text_eq k key then some n else lookup key xs

abbrev pub delete : Text → List (Text × ℕ) → List (Text × ℕ)
delete key [] = []
delete key ((k, n) ∷ xs) =
    let later = delete key xs in if text_eq k key then later else (k, n) ∷ later

abbrev pub store : Text → ℕ → List (Text × ℕ) → List (Text × ℕ)
store key n xs = (key, n) ∷ delete key xs

abbrev pub find_job : ℕ → List (ℕ × Job) → Option Job
find_job id [] = none
find_job id ((i, j) ∷ js) = if i == id then some j else find_job id js

abbrev pub update_job : ℕ → (Job → Job) → List (ℕ × Job) → List (ℕ × Job)
update_job id f [] = []
update_job id f ((i, j) ∷ js) =
    let later = update_job id f js in if i == id then (i, f j) ∷ later else (i, j) ∷ later

-- A gate opens with the release of its job; after an abort it waits for the gate ahead as well.
unfoldable pub is_open : List (ℕ × Job) → ℕ → Bool
is_open [] gate = true
is_open ((i, j) ∷ js) gate =
    let ahead : Bool = elim j.previous [ none ↦ true | some p ↦ is_open js p ] in
    let other = is_open js gate in if i == gate then j.released && (j.started || ahead) else other

abbrev pub reaches : ℕ → Option ℕ → Bool
reaches n none = false
reaches n (some limit) = leb limit n

abbrev pub or_zero : Option ℕ → ℕ
or_zero none = 0
or_zero (some n) = n

-- Whether a call is refused as overloaded.
abbrev pub is_overloaded : RequestScheduler → Text → Option ℕ → Bool
is_overloaded s key none = false
is_overloaded s key (some gate) =
    reaches s.queued s.max_queued
    || reaches (or_zero (lookup key s.waiting)) s.max_queued_per_bucket

abbrev pub count_waiter : RequestScheduler → Text → Option ℕ → RequestScheduler
count_waiter s key none = s
count_waiter s key (some gate) = record s {
  queued = s.queued + 1;
  waiting = store key (or_zero (lookup key s.waiting) + 1) s.waiting;
}

-- The call of `run` up to its wait, with its job; `none` is the error that the queue is full.
unfoldable pub run : RequestScheduler → Text → Option (RequestScheduler × ℕ)
run s key =
    let previous = lookup key s.queues in
    let job : Job = record { key = key; previous = previous; started = false; released = false } in
    let counted = count_waiter s key previous in
    if is_overloaded s key previous
    then none
    else some (
      record counted {
        queues = store key s.next_job s.queues;
        jobs = (s.next_job, job) ∷ s.jobs;
        next_job = s.next_job + 1;
      },
      s.next_job,
    )

-- The inner `finally`: the job waits no longer.
abbrev pub leave_queue : RequestScheduler → Job → RequestScheduler
leave_queue s j = elim j.previous [
  | none ↦ s
  | some gate ↦
      let left = or_zero (lookup j.key s.waiting) - 1 in
      record s {
        queued = s.queued - 1;
        waiting = if left == 0 then delete j.key s.waiting else store j.key left s.waiting;
      }
]

-- Whether the wait of a job is over.
unfoldable pub can_start : RequestScheduler → Job → Bool
can_start s j = elim j.previous [ none ↦ true | some gate ↦ is_open s.jobs gate ]

unfoldable pub start : RequestScheduler → ℕ → Job → RequestScheduler
start s id j =
    let left = leave_queue s j in
    record left { jobs = update_job id (λ x. record x { started = true }) left.jobs }

abbrev pub is_gate : Option ℕ → ℕ → Bool
is_gate none id = false
is_gate (some gate) id = gate == id

unfoldable pub release : RequestScheduler → ℕ → Job → RequestScheduler
release s id j = if j.released then s else record s {
  jobs = update_job id (λ x. record x { released = true }) s.jobs;
  queues = if is_gate (lookup j.key s.queues) id then delete j.key s.queues else s.queues;
}

-- The signal aborts the wait of a job.
unfoldable pub abort : RequestScheduler → ℕ → Job → RequestScheduler
abort s id j = release (leave_queue s j) id j
