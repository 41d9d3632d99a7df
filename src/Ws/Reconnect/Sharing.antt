-- ===== src/Ws/Reconnect/Sharing.antt =====
-- The shared promise of `attempt` and `settle` in reconnect.ts.
use lunibee.Base.{
  ℕ, ◌+◌, ◌≡◌, refl, Bool, true, false, Option, none, some, List, [], ◌∷◌, ◌++◌, arith, Text, All,
}
use lunibee.Ws.Reconnect.{GatewayReconnect, attempt, settle, connecting}

-- Later callers, whatever function each of them passes.
unfoldable pub join_all :
    GatewayReconnect
    → List (GatewayReconnect → GatewayReconnect)
    → GatewayReconnect × List (ℕ × Bool)
join_all r [] = (r, [])
join_all r (start ∷ starts) =
    let (r', p, ran) = attempt r start in
    let (r'', results) = join_all r' starts in (r'', (p, ran) ∷ results)

abbrev begun_by : GatewayReconnect → (GatewayReconnect → GatewayReconnect) → GatewayReconnect
begun_by r start =
    let started =
      start (record r { settler = some r.next_promise; next_promise = r.next_promise + 1 }) in
    record started { promise = some r.next_promise }

attempt_idle :
    (r : GatewayReconnect) (start : GatewayReconnect → GatewayReconnect)
    → r.promise ≡ none
    → attempt r start ≡ (begun_by r start, r.next_promise, true)
unfolding attempt
attempt_idle r start h = rw h

attempt_in_flight :
    (r : GatewayReconnect) (p : ℕ) (start : GatewayReconnect → GatewayReconnect)
    → r.promise ≡ some p
    → attempt r start ≡ (r, p, false)
unfolding attempt
attempt_in_flight r p start h = ground arith

join_all-in_flight :
    (r : GatewayReconnect) (p : ℕ) (starts : List (GatewayReconnect → GatewayReconnect))
    → r.promise ≡ some p
    → ((join_all r starts).0 ≡ r) × All (λ q. q ≡ (p, false)) (join_all r starts).1
unfolding join_all
join_all-in_flight r p [] h = (refl, tt)
join_all-in_flight r p (start ∷ starts) h =
    let (same, all) = join_all-in_flight r p starts h in
    rw (attempt_in_flight r p start h) (same, (refl, all))

-- While an attempt is in flight, every caller gets its promise and starts nothing, however many
-- call; then settling it resolves or rejects that one promise, once, and ends the attempt.
pub attempt_shared :
    (r : GatewayReconnect) (start : GatewayReconnect → GatewayReconnect)
    (starts : List (GatewayReconnect → GatewayReconnect)) (error : Option Text)
    → r.promise ≡ none
    → ((s : GatewayReconnect) → ((start s).settler ≡ s.settler) × ((start s).settled ≡ s.settled))
    → let (begun, p, ran) = attempt r start in
      let (joined, results) = join_all begun starts in
      (ran ≡ true)
      × (p ≡ r.next_promise)
      × All (λ q. q ≡ (p, false)) results
      × ((settle joined error).settled ≡ r.settled ++ (p, error) ∷ [])
      × (connecting (settle joined error) ≡ false)
unfolding settle
attempt_shared r start starts error idle inert =
    let begun = begun_by r start in
    let (same, all) = join_all-in_flight begun r.next_promise starts refl in
    let (settler, settled) =
      inert (record r { settler = some r.next_promise; next_promise = r.next_promise + 1 }) in
    rw (attempt_idle r start idle) (refl, refl, all, rw same (rw (settler, settled)), refl)

-- A `start` that settles the attempt before it returns leaves `#promise` set to the promise that
-- was settled: the object still counts as connecting, and every later caller is handed that
-- promise and starts nothing.
pub attempt_settled_in_start :
    (r : GatewayReconnect) (error : Option Text)
    (starts : List (GatewayReconnect → GatewayReconnect))
    → r.promise ≡ none
    → let (begun, p, ran) = attempt r (λ s. settle s error) in
      (begun.settled ≡ r.settled ++ (p, error) ∷ [])
      × (connecting begun ≡ true)
      × All (λ q. q ≡ (p, false)) (join_all begun starts).1
unfolding settle
attempt_settled_in_start r error starts idle =
    let start = λ (s : GatewayReconnect). settle s error in
    let begun = begun_by r start in
    rw (attempt_idle r start idle)
      (refl, refl, (join_all-in_flight begun r.next_promise starts refl).1)
