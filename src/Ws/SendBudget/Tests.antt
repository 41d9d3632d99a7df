-- ===== src/Ws/SendBudget/Tests.antt =====
-- The theorems about the send budget at concrete inputs.
use lunibee.Base.{ℕ, ◌≤◌, ◌≡◌, refl, Bool, true, false, List, [], ◌∷◌, arith, length}
use lunibee.Ws.SlidingWindow.{in_window, drop_expired}
use lunibee.Ws.SendBudget.{Attempt, new_limiter, dispatch, allows, record_send}
use lunibee.Ws.SendBudget.Refinement.{
  new_limiter-Tracks, results, spec_results, results-spec, application_send_bounded,
}

abbrev at : ℕ → Bool → Attempt
at now privileged = record { now = now; privileged = privileged; connected = true; written = true }

-- With a limit of one send in ten milliseconds.
abbrev attempts : List Attempt
attempts = at 1 false ∷ at 5 false ∷ at 6 true ∷ at 16 false ∷ []

attempts_run : results (new_limiter 1 10) attempts ≡ true ∷ false ∷ true ∷ true ∷ []
unfolding results dispatch allows record_send new_limiter drop_expired
attempts_run = refl

results-spec_example :
    results (new_limiter 1 10) attempts
    ≡ spec_results (new_limiter 1 10).limit (new_limiter 1 10).window_ms [] attempts
results-spec_example =
    results-spec (new_limiter 1 10) [] 0 attempts (new_limiter-Tracks 1 10) (omega arith)

application_send_bounded_example :
    length (in_window 1 (new_limiter 1 10).window_ms (1 ∷ [])) ≤ (new_limiter 1 10).limit
unfolding dispatch allows record_send new_limiter drop_expired
application_send_bounded_example =
    application_send_bounded (new_limiter 1 10) [] 0 (at 1 false) (omega arith)
      (new_limiter-Tracks 1 10) refl refl
