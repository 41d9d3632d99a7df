-- ===== src/Rest/Scheduler/Histories.antt =====
-- Histories of a scheduler of scheduler.ts in which no wait is aborted.
use lunibee.Base.{
  ℕ, ◌+◌, ◌≤◌, ◌≡◌, refl, ap, Bool, true, false, not, ◌&&◌, Option, none, some, List, [], ◌∷◌,
  if◌then◌else◌, Text, arith, Bool-cases, Option-cases, inl, inr, false≢true, subst,
}
use lunibee.Rest.Scheduler.{
  Job, RequestScheduler, new_scheduler, lookup, store, find_job, is_open, can_start, run, start,
  release, leave_queue, is_overloaded, count_waiter,
}
use mathlib.Core.Option.{some-injective}
use lunibee.Rest.Scheduler.Exclusion.{
  count_running, AllBelow, IsPrior, Chain, Chain-running, begin, end, AllBelow-update,
}
use lunibee.Rest.Scheduler.Steps.{IsReady, IsPrior-begin, Chain-begin, Chain-end}
use lunibee.Rest.Scheduler.Queues.{AllBelow-later, IsPrior-push, released_queues-IsPrior}

-- A call of `run`, the start of a task, and its end or early release.
pub data Event : Type 0 where
  runs : Text → Event
  starts ends : ℕ → Event

abbrev may_start : RequestScheduler → Job → Bool
may_start s j = can_start s j && not j.started && not j.released

abbrev may_end : Job → Bool
may_end j = j.started && not j.released

-- An event that cannot happen changes nothing.
unfoldable pub step : RequestScheduler → Event → RequestScheduler
step s (runs key) = elim (run s key) [ none ↦ s | some (t, id) ↦ t ]
step s (starts id) = elim (find_job id s.jobs) [
  | none ↦ s
  | some j ↦ if may_start s j then start s id j else s
]
step s (ends id) = elim (find_job id s.jobs) [
  | none ↦ s
  | some j ↦ if may_end j then release s id j else s
]

unfoldable pub run_all : RequestScheduler → List Event → RequestScheduler
run_all s [] = s
run_all s (e ∷ es) = run_all (step s e) es

-- The calls are in order, and each queue ends with the last call for its key.
InOrder : RequestScheduler → Type 0
InOrder s =
    Chain s.jobs
    × AllBelow s.next_job s.jobs
    × ((key : Text) → IsPrior key (lookup key s.queues) s.jobs)

leave_queue-fields :
    (s : RequestScheduler) (j : Job)
    → ((leave_queue s j).queues ≡ s.queues)
      × ((leave_queue s j).jobs ≡ s.jobs)
      × ((leave_queue s j).next_job ≡ s.next_job)
leave_queue-fields s j = (ground arith, ground arith, ground arith)

run-InOrder :
    (s : RequestScheduler) (key : Text) (p : RequestScheduler × ℕ)
    → InOrder s
    → run s key ≡ some p
    → InOrder p.0
unfolding run InOrder
run-InOrder s key p (chain, below, priors) h =
    let previous = lookup key s.queues in
    let job : Job = record { key = key; previous = previous; started = false; released = false } in
    let t = record (count_waiter s key previous) {
      queues = store key s.next_job s.queues;
      jobs = (s.next_job, job) ∷ s.jobs;
      next_job = s.next_job + 1;
    } in
    elim (Bool-cases (is_overloaded s key previous)) [
      | inl e ↦ absurd (ground (arith, e))
      | inr e ↦
          let ordered : InOrder t = (
            (below, priors key, λ r. r, λ b. absurd (false≢true b), chain),
            (omega arith, AllBelow-later s.next_job s.jobs below),
            λ k. IsPrior-push key k s.next_job job s.queues s.jobs refl (priors k),
          ) in
          subst InOrder (ap (λ x. x.0) (some-injective _ _ (rw e at h))) ordered
    ]

runs-InOrder : (s : RequestScheduler) (key : Text) → InOrder s → InOrder (step s (runs key))
unfolding step
runs-InOrder s key ordered = elim (Option-cases (run s key)) [
  | inl e ↦ rw (step, e) ordered
  | inr (p, e) ↦ rw (step, e) (run-InOrder s key p ordered e)
]

IsReady-of_can_start :
    (s : RequestScheduler) (j : Job) → can_start s j ≡ true → IsReady s.jobs j.previous
unfolding can_start
IsReady-of_can_start s j h = of (j.previous) h
  where
    of :
        (o : Option ℕ)
        → elim o [ none ↦ true | some gate ↦ is_open s.jobs gate ] ≡ true
        → IsReady s.jobs o
    of none h = tt
    of (some gate) h = h

start-InOrder :
    (s : RequestScheduler) (id : ℕ) (j : Job)
    → InOrder s
    → find_job id s.jobs ≡ some j
    → can_start s j ≡ true
    → InOrder (start s id j)
unfolding start InOrder
start-InOrder s id j (chain, below, priors) found ready =
    let (queues, jobs, next_job) = leave_queue-fields s j in
    rw (queues, jobs, next_job)
      (
        Chain-begin id j s.jobs chain found (IsReady-of_can_start s j ready),
        AllBelow-update s.next_job id begin s.jobs below,
        λ k. IsPrior-begin k id (lookup k s.queues) s.jobs (priors k),
      )

release-InOrder :
    (s : RequestScheduler) (id : ℕ) (j : Job)
    → InOrder s
    → find_job id s.jobs ≡ some j
    → may_end j ≡ true
    → InOrder (release s id j)
unfolding release InOrder
release-InOrder s id j (chain, below, priors) found may =
    let begun : j.started ≡ true = ground (arith, may) in
    let holding : j.released ≡ false = ground (arith, may) in
    rw holding (
      Chain-end id j s.jobs chain found begun,
      AllBelow-update s.next_job id end s.jobs below,
      λ k. released_queues-IsPrior s id j k chain priors found begun,
    )

step-InOrder : (s : RequestScheduler) (e : Event) → InOrder s → InOrder (step s e)
unfolding step InOrder
step-InOrder s (runs key) ordered = runs-InOrder s key ordered
step-InOrder s (starts id) ordered = elim (Option-cases (find_job id s.jobs)) [
  | inl e ↦ rw (step, e) ordered
  | inr (j, e) ↦ elim (Bool-cases (may_start s j)) [
    | inl m ↦ rw (step, e, m) (start-InOrder s id j ordered e (ground (arith, m)))
    | inr m ↦ rw (step, e, m) ordered
  ]
]
step-InOrder s (ends id) ordered = elim (Option-cases (find_job id s.jobs)) [
  | inl e ↦ rw (step, e) ordered
  | inr (j, e) ↦ elim (Bool-cases (may_end j)) [
    | inl m ↦ rw (step, e, m) (release-InOrder s id j ordered e m)
    | inr m ↦ rw (step, e, m) ordered
  ]
]

run_all-InOrder : (s : RequestScheduler) (es : List Event) → InOrder s → InOrder (run_all s es)
unfolding run_all
run_all-InOrder s [] ordered = ordered
run_all-InOrder s (e ∷ es) ordered = run_all-InOrder (step s e) es (step-InOrder s e ordered)

-- In every history of a new scheduler in which no wait is aborted, whatever is called, started and
-- ended in whatever order, at most one task holds the slot of a bucket key at a time.
pub run_all-running :
    (max_queued max_queued_per_bucket : Option ℕ) (es : List Event) (key : Text)
    → count_running key (run_all (new_scheduler max_queued max_queued_per_bucket) es).jobs ≤ 1
unfolding InOrder
run_all-running max_queued max_queued_per_bucket es key =
    let s = new_scheduler max_queued max_queued_per_bucket in
    let (chain, below, priors) = run_all-InOrder s es (tt, tt, λ k. refl) in
    Chain-running key (run_all s es).jobs chain
