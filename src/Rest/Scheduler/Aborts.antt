-- ===== src/Rest/Scheduler/Aborts.antt =====
-- What an abort leaves of the order of scheduler.ts.
use lunibee.Base.{
  ℕ, ◌+◌, ◌≡◌, refl, ap, ◌∙◌, true, false, none, some, List, [], ◌∷◌, ◌==◌, Text, arith, ==_self,
}
use lunibee.Rest.Scheduler.{
  Job, RequestScheduler, lookup, delete, find_job, update_job, run, can_start, release, abort,
  leave_queue, store,
}

lookup-delete : (key : Text) (xs : List (Text × ℕ)) → lookup key (delete key xs) ≡ none
lookup-delete key [] = refl
lookup-delete key ((k, n) ∷ xs) = ground (arith, lookup-delete key xs)

find-update_job :
    (a b : ℕ) (f : Job → Job) (js : List (ℕ × Job))
    → (b == a) ≡ false
    → find_job a (update_job b f js) ≡ find_job a js
find-update_job a b f [] h = refl
find-update_job a b f ((i, j) ∷ js) h = ground (arith, find-update_job a b f js)

leave_queue-fields :
    (s : RequestScheduler) (j : Job)
    → ((leave_queue s j).queues ≡ s.queues)
      × ((leave_queue s j).jobs ≡ s.jobs)
      × ((leave_queue s j).next_job ≡ s.next_job)
leave_queue-fields s j = (ground arith, ground arith, ground arith)

release-last :
    (s : RequestScheduler) (id : ℕ) (j : Job)
    → lookup j.key s.queues ≡ some id
    → j.released ≡ false
    → (lookup j.key (release s id j).queues ≡ none)
      × ((a : ℕ) → (id == a) ≡ false → find_job a (release s id j).jobs ≡ find_job a s.jobs)
      × ((release s id j).next_job ≡ s.next_job)
unfolding release
release-last s id j last pending =
    rw (pending, last, ==_self id)
      (
        lookup-delete j.key s.queues,
        λ a other. find-update_job a id (λ x. record x { released = true }) s.jobs other,
        refl,
      )

abort-last :
    (s : RequestScheduler) (id : ℕ) (j : Job)
    → lookup j.key s.queues ≡ some id
    → j.released ≡ false
    → (lookup j.key (abort s id j).queues ≡ none)
      × ((a : ℕ) → (id == a) ≡ false → find_job a (abort s id j).jobs ≡ find_job a s.jobs)
      × ((abort s id j).next_job ≡ s.next_job)
unfolding abort
abort-last s id j last pending =
    let (queues, jobs, next_job) = leave_queue-fields s j in
    let (gone, others, next) =
      release-last (leave_queue s j) id j (ap (lookup j.key) queues ∙ last) pending in
    (gone, λ a other. others a other ∙ ap (find_job a) jobs, next ∙ next_job)

-- A call on a key without a queue is admitted, and starts at once.
run-idle :
    (s : RequestScheduler) (key : Text)
    → lookup key s.queues ≡ none
    → (t : RequestScheduler) × (j : Job) × (run s key ≡ some (t, s.next_job))
      × (t.jobs ≡ (s.next_job, j) ∷ s.jobs)
      × (j.key ≡ key)
      × (can_start t j ≡ true)
unfolding run can_start
run-idle s key idle =
    let job : Job = record { key = key; previous = none; started = false; released = false } in
    let t = record s {
      queues = store key s.next_job s.queues;
      jobs = (s.next_job, job) ∷ s.jobs;
      next_job = s.next_job + 1;
    } in
    (t, job, rw idle refl, refl, refl, refl)

-- When the last request that waits on a bucket is aborted, the next request on that bucket is
-- admitted and may start at once, whatever runs on the bucket: a request that ran ahead of the
-- aborted one is still there as it was, and not waited for.
pub abort_admits_next :
    (s : RequestScheduler) (id running : ℕ) (j ahead : Job)
    → lookup j.key s.queues ≡ some id
    → j.released ≡ false
    → (id == running) ≡ false
    → (s.next_job == running) ≡ false
    → find_job running s.jobs ≡ some ahead
    → (t : RequestScheduler) × (next : Job) × (run (abort s id j) j.key ≡ some (t, s.next_job))
      × (next.key ≡ j.key)
      × (can_start t next ≡ true)
      × (find_job running t.jobs ≡ some ahead)
abort_admits_next s id running j ahead last pending other fresh there =
    let (gone, others, next) = abort-last s id j last pending in
    let (t, job, admitted, jobs, same, starts) = run-idle (abort s id j) j.key gone in
    (
      t,
      job,
      admitted ∙ ap (λ n. some (t, n)) next,
      same,
      starts,
      ap (find_job running) jobs ∙ ground (arith, next, fresh) ∙ others running other ∙ there,
    )
