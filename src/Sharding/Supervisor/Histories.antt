-- ===== src/Sharding/Supervisor/Histories.antt =====
-- Histories of the clusters of packages/sharding/src/supervisor.ts.
use lunibee.Base.{
  by_if, ℕ, zero, suc, ◌+◌, ◌<◌, ◌≡◌, refl, sym, ap, subst, ◌∙◌, Bool, true, false, Option, none,
  some, List, [], ◌∷◌, ◌==◌, leb, if◌then◌else◌, length, map, keep, is_some, arith, Bool-cases, inl,
  inr,
}
use lunibee.Collection.Maps.{find}
use lunibee.Collection.Maps.Laws.{
  IsMap, find-drop, drop-IsMap, find-drop_self, find-drop_ne, eq_of_==,
}
use lunibee.Ws.Reconnect.{Fraction}
use lunibee.Sharding.Supervisor.{
  Settings, Restarts, ShardSupervisor, remembered, count_of, delay_of, is_spent, next, attempts,
  reset, Event, exits, resets, run,
}
use lunibee.Sharding.Supervisor.Delays.{next-others, next-IsMap, find-put_self}

-- What `next` notes for a cluster and what it gives.
abbrev outcome : Bool → ℕ → ℕ → ℕ → Option Restarts × Option ℕ
outcome true count now delay = (none, none)
outcome false count now delay =
    (some (record { count = count + 1; restart_at = now + delay }), some delay)

-- The same, of what it found.
abbrev verdict : Settings → Option Restarts → ℕ → Fraction → Option Restarts × Option ℕ
verdict o found now random =
    let count = count_of (remembered o.window now found) in
    outcome (is_spent o.max_restarts count) count now (delay_of o count random)

module _ (s : ShardSupervisor) (id now : ℕ) (random : Fraction) where
  next-options : (next s id now random).0.options ≡ s.options
  unfolding next
  next-options =
      by_if (λ (r : ShardSupervisor × Option ℕ). r.0.options ≡ s.options)
        (is_spent s.options.max_restarts
          (count_of (remembered s.options.window now (find id s.restarts))))
        (λ _. refl) (λ _. refl)

  next-verdict :
      IsMap s.restarts
      → let r = next s id now random in
        (find id r.0.restarts, r.1) ≡ verdict s.options (find id s.restarts) now random
  unfolding next
  next-verdict maps =
      elim (Bool-cases (
        is_spent s.options.max_restarts
          (count_of (remembered s.options.window now (find id s.restarts))))) [
            | inl spent ↦ rw spent (ap (λ f. (f, none)) (find-drop_self id s.restarts maps))
            | inr allowed ↦
                let count = count_of (remembered s.options.window now (find id s.restarts)) in
                let delay = delay_of s.options count random in
                rw allowed (
                  ap (λ f. (f, some delay))
                    (find-put_self id (record { count = count + 1; restart_at = now + delay })
                      s.restarts))
          ]

-- Whether a call is about a cluster.
abbrev pub concerns : ℕ → Event → Bool
concerns id (exits i now random) = i == id
concerns id (resets none) = true
concerns id (resets (some i)) = i == id

-- The results of the calls for a cluster.
abbrev pub results_of : ℕ → List (ℕ × Option ℕ) → List (ℕ × Option ℕ)
results_of id results = keep (λ r. r.0 == id) results

reset-find :
    (s : ShardSupervisor) (id i : ℕ)
    → (i == id) ≡ false
    → find id (reset s (some i)).restarts ≡ find id s.restarts
unfolding reset
reset-find s id i other = find-drop_ne i id s.restarts (λ e. absurd (ground (arith, e)))

pub reset-IsMap :
    (s : ShardSupervisor) (id : Option ℕ) → IsMap s.restarts → IsMap (reset s id).restarts
unfolding reset
reset-IsMap s none maps = tt
reset-IsMap s (some i) maps = drop-IsMap i s.restarts maps

-- The same cluster, under two supervisors.
abbrev IsAlike : ℕ → ShardSupervisor → ShardSupervisor → Type 0
IsAlike id s t =
    (s.options ≡ t.options)
    × IsMap s.restarts
    × IsMap t.restarts
    × (find id s.restarts ≡ find id t.restarts)

reset-options : (s : ShardSupervisor) (id : Option ℕ) → (reset s id).options ≡ s.options
unfolding reset
reset-options s none = refl
reset-options s (some i) = refl

reset-IsAlike :
    (s t : ShardSupervisor) (id : ℕ) (i : Option ℕ)
    → concerns id (resets i) ≡ true
    → IsAlike id s t
    → IsAlike id (reset s i) (reset t i)
unfolding reset
reset-IsAlike s t id none here (options, maps, maps', same) = (options, tt, tt, refl)
reset-IsAlike s t id (some i) here (options, maps, maps', same) = (
  options,
  drop-IsMap i s.restarts maps,
  drop-IsMap i t.restarts maps',
  find-drop i id s.restarts maps
      ∙ (ap (λ f. if id == i then none else f) same ∙ sym (find-drop i id t.restarts maps')),
)

next-IsAlike :
    (s t : ShardSupervisor) (id now : ℕ) (random : Fraction)
    → IsAlike id s t
    → IsAlike id (next s id now random).0 (next t id now random).0
      × ((next s id now random).1 ≡ (next t id now random).1)
next-IsAlike s t id now random (options, maps, maps', same) =
    let both =
      next-verdict s id now random maps
      ∙ (ap (λ o. verdict o (find id s.restarts) now random) options
          ∙ (ap (λ f. verdict t.options f now random) same
              ∙ sym (next-verdict t id now random maps'))) in
    (
      (
        next-options s id now random ∙ (options ∙ sym (next-options t id now random)),
        next-IsMap s id now random maps,
        next-IsMap t id now random maps',
        ap (λ r. r.0) both,
      ),
      ap (λ r. r.1) both,
    )

-- The call for a cluster, and one for another.
next_here :
    (s t : ShardSupervisor) (id i now : ℕ) (random : Fraction)
    → (i == id) ≡ true
    → IsAlike id s t
    → IsAlike id (next s i now random).0 (next t i now random).0
      × ((next s i now random).1 ≡ (next t i now random).1)
next_here s t id i now random here alike =
    subst
      (λ (j : ℕ).
        IsAlike id (next s j now random).0 (next t j now random).0
        × ((next s j now random).1 ≡ (next t j now random).1))
      (sym (eq_of_== i id here)) (next-IsAlike s t id now random alike)

next_elsewhere :
    (s t : ShardSupervisor) (id i now : ℕ) (random : Fraction)
    → (i == id) ≡ false
    → IsAlike id s t
    → IsAlike id (next s i now random).0 t
next_elsewhere s t id i now random other (options, maps, maps', same) =
    let apart : (id == i) ≡ false = ground arith in
    (
      next-options s i now random ∙ options,
      next-IsMap s i now random maps,
      maps',
      rw apart at (next-others s i now random maps id) ∙ same,
    )

reset_elsewhere :
    (s t : ShardSupervisor) (id : ℕ) (i : Option ℕ)
    → concerns id (resets i) ≡ false
    → IsAlike id s t
    → IsAlike id (reset s i) t
reset_elsewhere s t id none other alike = absurd (ground (arith, other))
reset_elsewhere s t id (some i) other (options, maps, maps', same) = (
  reset-options s (some i) ∙ options,
  reset-IsMap s (some i) maps,
  maps',
  reset-find s id i other ∙ same,
)

-- What `run` does for a cluster is what it does on the calls about the cluster.
run-IsAlike :
    (s t : ShardSupervisor) (id : ℕ) (events : List Event)
    → IsAlike id s t
    → IsAlike id (run s events).0 (run t (keep (concerns id) events)).0
      × (results_of id (run s events).1 ≡ (run t (keep (concerns id) events)).1)
unfolding run
run-IsAlike s t id [] alike = (alike, refl)
run-IsAlike s t id (exits i now random ∷ events) alike = elim (Bool-cases (i == id)) [
  | inl here ↦
      let (both, result) = next_here s t id i now random here alike in
      let (later, results) =
        run-IsAlike (next s i now random).0 (next t i now random).0 id events both in
      rw here (
        later,
        ap (λ r. (i, r) ∷ results_of id (run (next s i now random).0 events).1) result
            ∙ ap ((i, (next t i now random).1) ∷◌) results,
      )
  | inr other ↦ rw other (
      run-IsAlike (next s i now random).0 t id events
        (next_elsewhere s t id i now random other alike))
]
run-IsAlike s t id (resets i ∷ events) alike = elim (Bool-cases (concerns id (resets i))) [
  | inl here ↦
      rw here (run-IsAlike (reset s i) (reset t i) id events (reset-IsAlike s t id i here alike))
  | inr other ↦
      rw other (run-IsAlike (reset s i) t id events (reset_elsewhere s t id i other alike))
]

module _ (s : ShardSupervisor) (maps : IsMap s.restarts) (id : ℕ) where
  -- Clusters do not matter to each other: in any history of exits and resets the results for a cluster,
  -- and its count afterwards, are those of the history of only the calls about it.
  pub run-concerns :
      (events : List Event)
      → (results_of id (run s events).1 ≡ (run s (keep (concerns id) events)).1)
        × (attempts (run s events).0 id ≡ attempts (run s (keep (concerns id) events)).0 id)
  unfolding attempts
  run-concerns events =
      let (alike, results) = run-IsAlike s s id events (refl, maps, maps, refl) in
      (results, ap count_of alike.3)

-- Less than a window has passed since the cluster's last restart.
abbrev pub IsUnstable : ℕ → ℕ → Option Restarts → Type 0
IsUnstable window now none = Unit
IsUnstable window now (some h) = now < h.restart_at + window

-- A cluster that exits again and again, each time before it has run for a window.
abbrev pub IsCrashLoop : ShardSupervisor → ℕ → List (ℕ × Fraction) → Type 0
IsCrashLoop s id [] = Unit
IsCrashLoop s id ((now, random) ∷ crashes) =
    IsUnstable s.options.window now (find id s.restarts)
    × IsCrashLoop (next s id now random).0 id crashes

abbrev pub exits_of : ℕ → List (ℕ × Fraction) → List Event
exits_of id crashes = map (λ c. exits id c.0 c.1) crashes

-- So many restarts, and then none.
abbrev pub then_gives_up : ℕ → List Bool
then_gives_up zero = false ∷ []
then_gives_up (suc n) = true ∷ then_gives_up n

unforgotten :
    (window now : ℕ) (found : Option Restarts)
    → IsUnstable window now found
    → remembered window now found ≡ found
unforgotten window now none loops = refl
unforgotten window now (some h) loops = ground (arith, loops)

module _ (s : ShardSupervisor) (maps : IsMap s.restarts) (id now most : ℕ) (random : Fraction)
    (limit : s.options.max_restarts ≡ some most)
    (unstable : IsUnstable s.options.window now (find id s.restarts)) where
  crash :
      let r = next s id now random in
      (find id r.0.restarts, r.1)
      ≡ outcome
          (leb most (attempts s id))
          (attempts s id)
          now
          (delay_of s.options (attempts s id) random)
  unfolding attempts
  crash =
      next-verdict s id now random maps
      ∙ rw (unforgotten s.options.window now (find id s.restarts) unstable, limit) refl

  last_crash :
      attempts s id ≡ most
      → (is_some (next s id now random).1 ≡ false) × (attempts (next s id now random).0 id ≡ 0)
  unfolding attempts
  last_crash at =
      let spent : leb most (attempts s id) ≡ true = ground arith in
      let both = rw spent at crash in (ap (λ r. is_some r.1) both, ap (λ r. count_of r.0) both)

  crash_again :
      attempts s id < most
      → (is_some (next s id now random).1 ≡ true)
        × (attempts (next s id now random).0 id ≡ attempts s id + 1)
  unfolding attempts
  crash_again below =
      let allowed : leb most (attempts s id) ≡ false = ground arith in
      let both = rw allowed at crash in (ap (λ r. is_some r.1) both, ap (λ r. count_of r.0) both)

module _ (id most : ℕ) where
  loop :
      (s : ShardSupervisor) (left : ℕ) (crashes : List (ℕ × Fraction))
      → IsMap s.restarts
      → s.options.max_restarts ≡ some most
      → attempts s id + left ≡ most
      → length crashes ≡ left + 1
      → IsCrashLoop s id crashes
      → (map (λ r. is_some r.1) (run s (exits_of id crashes)).1 ≡ then_gives_up left)
        × (attempts (run s (exits_of id crashes)).0 id ≡ 0)
  unfolding run
  loop s left [] maps limit at enough loops = absurd (omega (arith, enough))
  loop s zero ((now, random) ∷ []) maps limit at enough (here, loops) =
      let (spent, gone) = last_crash s maps id now most random limit here (omega (arith, at)) in
      (ap (λ b. b ∷ []) spent, gone)
  loop s zero ((now, random) ∷ c ∷ crashes) maps limit at enough loops =
      absurd (omega (arith, enough))
  loop s (suc left) ((now, random) ∷ crashes) maps limit at enough (here, loops) =
      let (again, count) = crash_again s maps id now most random limit here (omega (arith, at)) in
      let after = (next s id now random).0 in
      let (results, gone) =
        loop after left crashes (next-IsMap s id now random maps)
          (ap (λ o. o.max_restarts) (next-options s id now random) ∙ limit)
          (omega (arith, at, count)) (omega (arith, enough)) loops in
      (
        ap (λ b. b ∷ map (λ r. is_some r.1) (run after (exits_of id crashes)).1) again
            ∙ ap (true ∷◌) results,
        gone,
      )

  -- A cluster that keeps crashing, never running for a whole window, whatever else happens to other
  -- clusters, is restarted as often as the limit leaves, and then given up and forgotten.
  pub crash_loop_gives_up :
      (s : ShardSupervisor) (left : ℕ) (crashes : List (ℕ × Fraction)) (events : List Event)
      → IsMap s.restarts
      → s.options.max_restarts ≡ some most
      → attempts s id + left ≡ most
      → length crashes ≡ left + 1
      → IsCrashLoop s id crashes
      → keep (concerns id) events ≡ exits_of id crashes
      → (map (λ r. is_some r.1) (results_of id (run s events).1) ≡ then_gives_up left)
        × (attempts (run s events).0 id ≡ 0)
  crash_loop_gives_up s left crashes events maps limit at enough loops same =
      let (results, count) = run-concerns s maps id events in
      let (gives_up, gone) = loop s left crashes maps limit at enough loops in
      (
        ap (map (λ r. is_some r.1)) (results ∙ ap (λ es. (run s es).1) same) ∙ gives_up,
        count ∙ (ap (λ es. attempts (run s es).0 id) same ∙ gone),
      )
