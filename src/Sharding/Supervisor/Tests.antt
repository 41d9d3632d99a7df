-- ===== src/Sharding/Supervisor/Tests.antt =====
-- Runs of the code of packages/sharding/src/supervisor.ts on concrete options.
use lunibee.Base.{ℕ, ◌+◌, ◌≡◌, refl, none, some, List, [], ◌∷◌, true, false, map, is_some, arith}
use lunibee.Collection.Maps.{find}
use lunibee.Ws.Reconnect.{Fraction}
use lunibee.Sharding.Supervisor.{
  Settings, ShardSupervisor, with_defaults, new_supervisor, next, attempts, reset, run, Event,
  exits, resets, delay_of,
}
use lunibee.Sharding.Supervisor.Delays.{next-IsJudged, IsJudged}
use lunibee.Sharding.Supervisor.Histories.{
  run-concerns, results_of, crash_loop_gives_up, exits_of, IsCrashLoop,
}

abbrev half : Fraction
half = record { num = 1; den = 2 }

-- Waits of 1000, 2000, 4000 and then 5000 ms, up to three restarts.
abbrev settings : Settings
settings = record {
  restart_delay = 1000;
  backoff = record { num = 2; den = 1 };
  max_delay = 5000;
  jitter = record { num = 0; den = 1 };
  max_restarts = some 2;
  window = 60_000;
}

abbrev supervisor : ShardSupervisor
supervisor = record { options = settings; restarts = [] }

supervisor_new :
    new_supervisor (record {
      restart_delay = some 1000;
      backoff = some (record { num = 2; den = 1 });
      max_delay = some 5000;
      jitter = none;
      max_restarts = some 2;
      window = none;
    })
    ≡ some supervisor
unfolding new_supervisor with_defaults
supervisor_new = refl

next-IsJudged_example :
    IsJudged supervisor 7 100 (next supervisor 7 100 half).0 (next supervisor 7 100 half).1
    × (find 8 (next supervisor 7 100 half).0.restarts ≡ none)
next-IsJudged_example =
    next-IsJudged supervisor 7 100 half tt 8 (omega arith) (omega arith) (omega arith) (omega arith)

-- Cluster 7 crashes three times, cluster 8 once.
abbrev events : List Event
events =
    exits 7 100 half
    ∷ exits 8 150 half
    ∷ exits 7 1200 half
    ∷ resets (some 8)
    ∷ exits 7 4000 half
    ∷ []

abbrev crashes : List (ℕ × Fraction)
crashes = (100, half) ∷ (1200, half) ∷ (4000, half) ∷ []

waits :
    (run supervisor events).1 ≡ (7, some 1000) ∷ (8, some 1000) ∷ (7, some 2000) ∷ (7, none) ∷ []
unfolding run next reset delay_of
waits = refl

run-concerns_example :
    (results_of 7 (run supervisor events).1 ≡ (run supervisor (exits_of 7 crashes)).1)
    × (attempts (run supervisor events).0 7 ≡ attempts (run supervisor (exits_of 7 crashes)).0 7)
run-concerns_example = run-concerns supervisor tt 7 events

loops : IsCrashLoop supervisor 7 crashes
unfolding next delay_of
loops = (tt, (omega arith, (omega arith, tt)))

unattempted : attempts supervisor 7 + 2 ≡ 2
unfolding attempts
unattempted = refl

crash_loop_gives_up_example :
    (map (λ r. is_some r.1) (results_of 7 (run supervisor events).1) ≡ true ∷ true ∷ false ∷ [])
    × (attempts (run supervisor events).0 7 ≡ 0)
crash_loop_gives_up_example =
    crash_loop_gives_up 7 2 supervisor 2 crashes events tt refl unattempted refl loops refl
