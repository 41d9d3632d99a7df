-- ===== src/Ws/SendBudget/Refinement.antt =====
-- The send budget of send-budget.ts against the log of every payload that went out.
use lunibee.Base.{
  length-keep-le, ap, keep, ◌<◌, Bool-cases, ℕ, ◌+◌, ◌≤◌, ◌≡◌, refl, Bool, true, false, ◌&&◌, ◌||◌,
  inl, inr, List, [], ◌∷◌, ◌++◌, arith, ltb, if◌then◌else◌, keep-append, length, length-append,
}
use lunibee.Ws.SlidingWindow.{
  Keeps, empty-Keeps, drop_expired-log, drop_expired-Keeps, concat-Keeps, later-Keeps, in_window,
  drop_expired,
}
use lunibee.Ws.SendBudget.{new_limiter, GatewaySendLimiter, Attempt, allows, record_send, dispatch}

-- The limiter keeps enough of the log for every window that ends at `last` or later.
abbrev pub Tracks : GatewaySendLimiter → List ℕ → ℕ → Type 0
Tracks l log last = Keeps l.window_ms l.timestamps log last

allows-Tracks :
    (l : GatewaySendLimiter) (log : List ℕ) (last now : ℕ) (privileged : Bool)
    → last ≤ now
    → Tracks l log last
    → Tracks (allows l privileged now).0 log now
unfolding allows
allows-Tracks l log last now privileged h t =
    drop_expired-Keeps l.window_ms last now l.timestamps log h t

record_send-Tracks :
    (l : GatewaySendLimiter) (log : List ℕ) (now : ℕ)
    → Tracks l log now
    → Tracks (record_send l now) (log ++ now ∷ []) now
unfolding record_send
record_send-Tracks l log now t = concat-Keeps l.window_ms now l.timestamps log t

-- The specification: the whole log, and a send allowed if it is privileged or fewer than `limit`
-- of the log's entries lie in the window.
unfoldable pub spec_dispatch : ℕ → ℕ → List ℕ → Attempt → List ℕ × Bool
spec_dispatch limit window log a =
    let sent =
      a.connected
      && (a.privileged || ltb (length (in_window a.now window log)) limit)
      && a.written in
    (if sent then log ++ a.now ∷ [] else log, sent)

unfoldable pub spec_results : ℕ → ℕ → List ℕ → List Attempt → List Bool
spec_results limit window log [] = []
spec_results limit window log (a ∷ as') =
    let (log', sent) = spec_dispatch limit window log a in sent ∷ spec_results limit window log' as'

unfoldable pub results : GatewaySendLimiter → List Attempt → List Bool
results l [] = []
results l (a ∷ as') = let (l', sent) = dispatch l a in sent ∷ results l' as'

-- The clock does not run backwards.
abbrev pub IsMonotone : ℕ → List Attempt → Type 0
IsMonotone last [] = Unit {0}
IsMonotone last (a ∷ as') = (last ≤ a.now) × IsMonotone a.now as'

allows_lem :
    (l : GatewaySendLimiter) (log : List ℕ) (last now : ℕ) (privileged : Bool)
    → last ≤ now
    → Tracks l log last
    → (allows l privileged now).1
      ≡ (privileged || ltb (length (in_window now l.window_ms log)) l.limit)
unfolding allows
allows_lem l log last now privileged h t =
    rw (drop_expired-log l.window_ms last now l.timestamps log h t)

allows_options :
    (l : GatewaySendLimiter) (privileged : Bool) (now : ℕ)
    → ((allows l privileged now).0.limit ≡ l.limit)
      × ((allows l privileged now).0.window_ms ≡ l.window_ms)
unfolding allows
allows_options l privileged now = (refl, refl)

dispatch_options :
    (l : GatewaySendLimiter) (a : Attempt)
    → ((dispatch l a).0.limit ≡ l.limit) × ((dispatch l a).0.window_ms ≡ l.window_ms)
unfolding dispatch record_send
dispatch_options l a = ground (arith, allows_options l a.privileged a.now)

dispatch-Tracks :
    (l : GatewaySendLimiter) (log : List ℕ) (last : ℕ) (a : Attempt)
    → last ≤ a.now
    → Tracks l log last
    → ((dispatch l a).1 ≡ (spec_dispatch l.limit l.window_ms log a).1)
      × Tracks (dispatch l a).0 (spec_dispatch l.limit l.window_ms log a).0 a.now
unfolding dispatch spec_dispatch
dispatch-Tracks l log last a h t =
    let asked = allows-Tracks l log last a.now a.privileged h t in
    let allowed = allows_lem l log last a.now a.privileged h t in
    rw (← allowed) (elim (Bool-cases a.connected) [
      | inr e ↦ rw e (refl, later-Keeps l.window_ms last a.now l.timestamps log h t)
      | inl e ↦ rw e (elim (Bool-cases (allows l a.privileged a.now).1) [
        | inr f ↦ rw f (refl, asked)
        | inl f ↦ rw f (elim (Bool-cases a.written) [
          | inr g ↦ rw g (refl, asked)
          | inl g ↦ rw g (refl, record_send-Tracks (allows l a.privileged a.now).0 log a.now asked)
        ])
      ])
    ])

-- Whatever is attempted, with a clock that does not run backwards, a payload goes out exactly when
-- the socket is connected and writes it, and it is privileged or fewer than `limit` of all the
-- payloads that ever went out were sent less than `window_ms` ago: forgetting the older
-- timestamps loses nothing.
pub results-spec :
    (l : GatewaySendLimiter) (log : List ℕ) (last : ℕ) (as' : List Attempt)
    → Tracks l log last
    → IsMonotone last as'
    → results l as' ≡ spec_results l.limit l.window_ms log as'
unfolding results spec_results
results-spec l log last [] t m = refl
results-spec l log last (a ∷ as') t m =
    let (same, tracks) = dispatch-Tracks l log last a m.0 t in
    let (limit, window) = dispatch_options l a in
    let rest = results-spec (dispatch l a).0 _ a.now as' tracks m.1 in
    rw (rest, limit, window, same)

pub new_limiter-Tracks : (limit window_ms : ℕ) → Tracks (new_limiter limit window_ms) [] 0
unfolding new_limiter
new_limiter-Tracks limit window_ms = empty-Keeps window_ms

dispatch_sent_under :
    (l : GatewaySendLimiter) (a : Attempt)
    → a.privileged ≡ false
    → (dispatch l a).1 ≡ true
    → length (drop_expired a.now l.window_ms l.timestamps) < l.limit
unfolding dispatch allows
dispatch_sent_under l a p sent = ground arith

-- When an application payload goes out, the log with it holds at most `limit` sends of the last
-- `window_ms`, the privileged ones included.
pub application_send_bounded :
    (l : GatewaySendLimiter) (log : List ℕ) (last : ℕ) (a : Attempt)
    → last ≤ a.now
    → Tracks l log last
    → a.privileged ≡ false
    → (dispatch l a).1 ≡ true
    → length (in_window a.now l.window_ms (log ++ a.now ∷ [])) ≤ l.limit
application_send_bounded l log last a h t p sent =
    let window = λ (u : ℕ). ltb a.now (u + l.window_ms) in
    let under = dispatch_sent_under l a p sent in
    let kept = drop_expired-log l.window_ms last a.now l.timestamps log h t in
    rw (keep-append window log (a.now ∷ [])) (
      omega (
        arith,
        ap length kept,
        under,
        length-append (in_window a.now l.window_ms log) (keep window (a.now ∷ [])),
        length-keep-le window (a.now ∷ []),
      ))
