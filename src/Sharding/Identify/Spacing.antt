-- ===== src/Sharding/Identify/Spacing.antt =====
-- Two grants on one bucket of identify.ts are an interval apart, whatever is called.
use lunibee.Base.{
  ℕ, zero, suc, ◌%◌, ◌≤◌, ◌≡◌, ◌⊎◌, inl, inr, refl, sym, true, false, Option, none, some, List, [],
  ◌∷◌, ◌++◌, arith, Bool-cases, subst,
}
use lunibee.Sharding.Identify.State.{
  new_coordinator, IdentifyBudget, IdentifyCoordinator, Effect, released, expired,
}
use lunibee.Sharding.Identify.Calls.{
  find_key, release, close, hold_expires, timer_fires, holds, holder_of, is_holder,
}
use lunibee.Sharding.Identify.History.{
  Event, acquires, releases, expires, drops, fires, pumps, closes, step,
}
use lunibee.Sharding.Identify.Ungranted.{close_keys-ungranted}
use lunibee.Sharding.Identify.Closing.{step-StaysClosed}
use lunibee.Sharding.Identify.Buckets.{count_on, Filed, Due}
use lunibee.Sharding.Identify.Keys.{count_on-le_granted}
use lunibee.Sharding.Identify.Ready.{RestsIn, Ready, Follows, pump-Follows, stays-Follows}
use lunibee.Sharding.Identify.BucketCalls.{acquire-Follows, free_and_pump-Follows, drop-Follows}
use lunibee.Sharding.Identify.Budget.{time_of}

-- The clock after an event; closing reads none.
abbrev clock : ℕ → Event → ℕ
clock now closes = now
clock now e = time_of e

-- The clock never runs backwards.
abbrev pub Ordered : ℕ → List Event → Type 0
Ordered now [] = Unit
Ordered now (e ∷ es) = (now ≤ clock now e) × Ordered (clock now e) es

abbrev repeat : ℕ → ℕ → List ℕ
repeat zero t = []
repeat (suc n) t = t ∷ repeat n t

-- The times of the grants on a bucket over a history.
unfoldable pub grant_times : ℕ → IdentifyCoordinator → List Event → List ℕ
grant_times b c [] = []
grant_times b c (e ∷ es) =
    let (d, effects) = step c e in repeat (count_on b effects) (time_of e) ++ grant_times b d es

-- Each time is at least the interval after the one before it.
abbrev pub Spaced : ℕ → Option ℕ → List ℕ → Type 0
Spaced interval last [] = Unit
Spaced interval last (t ∷ ts) = Due interval last t × Spaced interval (some t) ts

closed-grant_times :
    (b : ℕ) (c : IdentifyCoordinator) (es : List Event) → c.closed ≡ true → grant_times b c es ≡ []
unfolding grant_times
closed-grant_times b c [] h = refl
closed-grant_times b c (e ∷ es) h =
    let (d, effects) = step c e in
    let (still, quiet) = step-StaysClosed c e h in
    let silent : count_on b effects ≡ 0 = omega (arith, quiet, count_on-le_granted b effects) in
    rw (silent, closed-grant_times b d es still) refl

closes-grant_times :
    (b : ℕ) (c : IdentifyCoordinator) (es : List Event) → grant_times b c (closes ∷ es) ≡ []
unfolding grant_times step close
closes-grant_times b c es =
    let (d, effects) = close c in
    let silent : count_on b effects ≡ 0 =
      omega (arith, close_keys-ungranted c.keys, count_on-le_granted b effects) in
    rw (silent, closed-grant_times b d es refl) refl

-- What an event other than `close` leaves.
step-Follows :
    (b before : ℕ) (last : Option ℕ) (c : IdentifyCoordinator) (e : Event)
    → Ready b last before c
    → before ≤ clock before e
    → (Follows b c.interval last (clock before e) (step c e) × (clock before e ≡ time_of e))
      ⊎ (e ≡ closes)
unfolding step release hold_expires timer_fires
step-Follows b before last c (acquires owner shard_id now) ready le =
    inl (acquire-Follows b before now owner shard_id last c ready le, refl)
step-Follows b before last c (releases owner shard_id now) ready le =
    let index = shard_id % c.max_concurrency in
    elim (Bool-cases (holds (holder_of (find_key index c.keys)) owner shard_id)) [
      | inl e ↦ rw e (
          inl (
            free_and_pump-Follows b before now index last c (released owner shard_id index) ready le
                (unfold count_on in refl),
            refl,
          ))
      | inr e ↦ rw e (inl (stays-Follows b before now last c ready le, refl))
    ]
step-Follows b before last c (expires index owner shard_id timer now) ready le =
    elim (Bool-cases (is_holder (holder_of (find_key index c.keys)) timer)) [
      | inl e ↦ rw e (
          inl (
            free_and_pump-Follows b before now index last c
                (expired owner shard_id (shard_id % c.max_concurrency)) ready le
                (unfold count_on in refl),
            refl,
          ))
      | inr e ↦ rw e (inl (stays-Follows b before now last c ready le, refl))
    ]
step-Follows b before last c (drops owner now) ready le =
    inl (drop-Follows b before now owner last c ready le, refl)
step-Follows b before last c (fires now) ready le =
    inl
      (pump-Follows b before now last (record c { timer = none }) (unfold Ready in ready) le, refl)
step-Follows b before last c (pumps now) ready le =
    inl (pump-Follows b before now last c ready le, refl)
step-Follows b before last c closes ready le = inr refl

-- The times of a call come before those of the calls after it.
Follows-Spaced :
    (b interval t : ℕ) (last : Option ℕ) (p : IdentifyCoordinator × List Effect) (ts : List ℕ)
    → Follows b interval last t p
    → ((last' : Option ℕ) → Ready b last' t p.0 → Spaced p.0.interval last' ts)
    → Spaced interval last (repeat (count_on b p.1) t ++ ts)
unfolding Follows
Follows-Spaced b interval t last p ts (same, outcome) later = elim outcome [
  | inl (zero_on, ready) ↦ rw zero_on (subst (λ x. Spaced x last ts) same (later last ready))
  | inr (one_on, due, ready) ↦
      rw one_on (due, subst (λ x. Spaced x (some t) ts) same (later (some t) ready))
]

grant_times-Spaced_from :
    (b before : ℕ) (last : Option ℕ) (c : IdentifyCoordinator) (es : List Event)
    → Ready b last before c
    → Ordered before es
    → Spaced c.interval last (grant_times b c es)
unfolding grant_times
grant_times-Spaced_from b before last c [] ready ordered = tt
grant_times-Spaced_from b before last c (e ∷ es) ready (le, ordered) =
    elim (step-Follows b before last c e ready le) [
      | inl (follows, same) ↦
          subst
            (λ t.
              Spaced c.interval last
                (repeat (count_on b (step c e).1) t ++ grant_times b (step c e).0 es))
            same
            (Follows-Spaced b c.interval (clock before e) last (step c e)
              (grant_times b (step c e).0 es) follows
              (λ last' ready'.
                grant_times-Spaced_from b (clock before e) last' (step c e).0 es ready' ordered))
      | inr is ↦
          subst (λ x. Spaced c.interval last (grant_times b c (x ∷ es))) (sym is)
            (subst (Spaced c.interval last) (sym (closes-grant_times b c es)) tt)
    ]

new_coordinator-fields :
    (max_concurrency interval hold_timeout now : ℕ) (budget : Option IdentifyBudget)
    (c : IdentifyCoordinator)
    → new_coordinator max_concurrency interval hold_timeout now budget ≡ some c
    → (c.closed ≡ false) × (c.keys ≡ [])
unfolding new_coordinator
new_coordinator-fields max_concurrency interval hold_timeout now none c made = ground arith
new_coordinator-fields max_concurrency interval hold_timeout now (some budget) c made = ground arith

-- One IDENTIFY for each bucket and interval: from a coordinator that was just made, under any
-- sequence of calls and timers with a clock that does not run backwards, the times of the grants on
-- one bucket are at least `interval` apart.
pub grant_times-Spaced :
    (b max_concurrency interval hold_timeout now : ℕ) (budget : Option IdentifyBudget)
    (c : IdentifyCoordinator) (es : List Event)
    → new_coordinator max_concurrency interval hold_timeout now budget ≡ some c
    → Ordered now es
    → Spaced c.interval none (grant_times b c es)
grant_times-Spaced b max_concurrency interval hold_timeout now budget c es made ordered =
    let (open_still, empty) =
      new_coordinator-fields max_concurrency interval hold_timeout now budget c made in
    grant_times-Spaced_from b now none c es
      (unfold Ready in
        (
          open_still,
          subst (Filed c.max_concurrency) (sym empty) tt,
          subst (λ ks. RestsIn c.interval none now (find_key b ks)) (sym empty) refl,
        ))
      ordered
