-- ===== src/Rest/Scheduler/Tests.antt =====
-- The theorem on scheduler.ts at a concrete queue.
use lunibee.Base.{◌≤◌, ◌≡◌, refl, true, false, none, some, [], ◌∷◌, codes, Text}
use lunibee.Rest.Scheduler.{RequestScheduler, Job, new_scheduler, run, abort, can_start, find_job}
use lunibee.Rest.Scheduler.Exclusion.{count_running}
use lunibee.Rest.Scheduler.Histories.{runs, starts, run_all, run_all-running}
use lunibee.Rest.Scheduler.Aborts.{abort_admits_next}

abbrev bucket : Text
bucket = codes "b"

abbrev ahead : Job
ahead = record { key = bucket; previous = none; started = true; released = false }

abbrev behind : Job
behind = record { key = bucket; previous = some 0; started = false; released = false }

-- One request runs and one waits.
abbrev scheduler : RequestScheduler
scheduler = record (new_scheduler none none) {
  queues = (bucket, 1) ∷ [];
  waiting = (bucket, 1) ∷ [];
  queued = 1;
  jobs = (1, behind) ∷ (0, ahead) ∷ [];
  next_job = 2;
}

abort_admits_next_example :
    (t : RequestScheduler) × (next : Job) × (run (abort scheduler 1 behind) bucket ≡ some (t, 2))
    × (next.key ≡ bucket)
    × (can_start t next ≡ true)
    × (find_job 0 t.jobs ≡ some ahead)
abort_admits_next_example = abort_admits_next scheduler 1 0 behind ahead refl refl refl refl refl

run_all-running_example :
    count_running bucket
      (run_all
        (new_scheduler none none)
        (runs bucket ∷ starts 0 ∷ runs bucket ∷ starts 1 ∷ [])).jobs
    ≤ 1
run_all-running_example =
    run_all-running none none (runs bucket ∷ starts 0 ∷ runs bucket ∷ starts 1 ∷ []) bucket
