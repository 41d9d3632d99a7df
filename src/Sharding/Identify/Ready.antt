-- ===== src/Sharding/Identify/Ready.antt =====
-- A pump of identify.ts grants at most once on a bucket, and not before the last grant is an
-- interval old.
use lunibee.Base.{
  ℕ, ◌≤◌, ◌≡◌, ◌⊎◌, inl, inr, refl, sym, ◌∙◌, false, Option, none, some, List, [], ◌++◌, arith,
  Option-cases, subst,
}
use lunibee.Sharding.Identify.State.{IdentifyCoordinator, Key, Effect}
use lunibee.Sharding.Identify.Pumping.{Round, pump_open, pump, rounds, after_rounds, arm, refill}
use lunibee.Sharding.Identify.Calls.{find_key}
use lunibee.Sharding.Identify.Waiting.{pump_open-keys, pump_open-effects}
use lunibee.Sharding.Identify.Buckets.{
  count_on, count_on-append, Filed, Rests, Due, Rests-later, pump_key-mine,
}
use lunibee.Sharding.Identify.BucketRounds.{pump_keys-absent, pump_keys-found, pump_keys-Filed}

-- The key of a bucket, which the map may not have yet: then nothing was granted on it.
abbrev pub RestsIn : ℕ → Option ℕ → ℕ → Option Key → Type 0
RestsIn interval last now none = last ≡ none
RestsIn interval last now (some key) = Rests interval last now key

-- An open coordinator at `now`, whose last grant on the bucket was at `last`.
unfoldable pub Ready : ℕ → Option ℕ → ℕ → IdentifyCoordinator → Type 0
Ready b last now c =
    (c.closed ≡ false)
    × Filed c.max_concurrency c.keys
    × RestsIn c.interval last now (find_key b c.keys)

-- What a call at `now` leaves: no grant on the bucket, or one that may follow the last.
unfoldable pub Follows : ℕ → ℕ → Option ℕ → ℕ → IdentifyCoordinator × List Effect → Type 0
Follows b interval last now (d, effects) =
    (d.interval ≡ interval)
    × (((count_on b effects ≡ 0) × Ready b last now d)
        ⊎ ((count_on b effects ≡ 1) × Due interval last now × Ready b (some now) now d))

refill-fields :
    (c : IdentifyCoordinator) (now : ℕ)
    → ((refill c now).max_concurrency ≡ c.max_concurrency)
      × ((refill c now).keys ≡ c.keys)
      × ((refill c now).interval ≡ c.interval)
      × ((refill c now).closed ≡ c.closed)
unfolding refill
refill-fields c now = (ground arith, ground arith, ground arith, ground arith)

arm-fields :
    (c : IdentifyCoordinator) (at : Option ℕ)
    → ((arm c at).max_concurrency ≡ c.max_concurrency)
      × ((arm c at).interval ≡ c.interval)
      × ((arm c at).closed ≡ c.closed)
unfolding arm
arm-fields c at = (ground arith, ground arith, ground arith)

pump_open-fields :
    (c : IdentifyCoordinator) (now : ℕ)
    → ((pump_open c now).0.max_concurrency ≡ c.max_concurrency)
      × ((pump_open c now).0.interval ≡ c.interval)
      × ((pump_open c now).0.closed ≡ c.closed)
unfolding pump_open after_rounds
pump_open-fields c now =
    let (max, keys, interval, closed) = refill-fields c now in
    let p = rounds c now in
    let (max', interval', closed') = arm-fields (after_rounds (refill c now) p) p.0.next in
    (max' ∙ max, interval' ∙ interval, closed' ∙ closed)

-- The loop of `pump` on a bucket.
rounds-Follows :
    (b before now : ℕ) (last : Option ℕ) (c : IdentifyCoordinator)
    → Filed c.max_concurrency c.keys
    → RestsIn c.interval last before (find_key b c.keys)
    → before ≤ now
    → Filed c.max_concurrency (rounds c now).1
      × (((count_on b (rounds c now).2 ≡ 0)
            × RestsIn c.interval last now (find_key b (rounds c now).1))
          ⊎ ((count_on b (rounds c now).2 ≡ 1)
              × Due c.interval last now
              × RestsIn c.interval (some now) now (find_key b (rounds c now).1)))
unfolding rounds
rounds-Follows b before now last c filed rests le =
    let d = refill c now in
    let (max, keys, interval, closed) = refill-fields c now in
    let start : Round = record {
      remaining = d.remaining;
      next = none;
      next_handle = d.next_handle;
    } in
    rw (max, keys)
      (
        pump_keys-Filed c.max_concurrency now d.reset_at start c.keys filed,
        elim (Option-cases (find_key b c.keys)) [
          | inl e ↦
              let (gone, zero_on) =
                pump_keys-absent c.max_concurrency now d.reset_at b start c.keys e filed in
              inl (zero_on, rw gone (rw e at rests))
          | inr (key, e) ↦
              let (r, found, counted, there) =
                pump_keys-found c.max_concurrency now d.reset_at b start c.keys key e filed in
              elim (pump_key-mine c.max_concurrency now d.reset_at r b c.interval before last key
                there le (rw e at rests)) [
                  | inl (zero_on, later) ↦ inl (counted ∙ zero_on, rw found later)
                  | inr (one_on, due, later) ↦ inr (counted ∙ one_on, due, rw found later)
                ]
        ],
      )

pump_open-Follows :
    (b before now : ℕ) (last : Option ℕ) (c : IdentifyCoordinator)
    → Ready b last before c
    → before ≤ now
    → Follows b c.interval last now (pump_open c now)
unfolding Ready Follows
pump_open-Follows b before now last c (open_still, filed, rests) le =
    let (max, interval, closed) = pump_open-fields c now in
    let (filed', outcome) = rounds-Follows b before now last c filed rests le in
    rw (max, interval, closed, pump_open-keys c now, pump_open-effects c now)
      (
        refl,
        elim outcome [
          | inl (zero_on, later) ↦ inl (zero_on, (open_still, filed', later))
          | inr (one_on, due, later) ↦ inr (one_on, due, (open_still, filed', later))
        ],
      )

pub pump-Follows :
    (b before now : ℕ) (last : Option ℕ) (c : IdentifyCoordinator)
    → Ready b last before c
    → before ≤ now
    → Follows b c.interval last now (pump c now)
pump-Follows b before now last c ready le =
    subst (Follows b c.interval last now) (sym (pump-open c now (unfold Ready in ready.0)))
      (pump_open-Follows b before now last c ready le)
  where
    pump-open :
        (c : IdentifyCoordinator) (now : ℕ) → c.closed ≡ false → pump c now ≡ pump_open c now
    pump-open c now h = unfold pump in ground (arith, h)

-- Effects that grant nothing on the bucket come before those of a pump.
pub Follows-prepend :
    (b interval now : ℕ) (last : Option ℕ) (effects : List Effect)
    (p : IdentifyCoordinator × List Effect)
    → count_on b effects ≡ 0
    → Follows b interval last now p
    → Follows b interval last now (p.0, effects ++ p.1)
unfolding Follows
Follows-prepend b interval now last effects p h (same, outcome) = (
  same,
  elim outcome [
    | inl (zero_on, ready) ↦ inl (omega (arith, h, zero_on, count_on-append b effects p.1), ready)
    | inr (one_on, due, ready) ↦
        inr (omega (arith, h, one_on, count_on-append b effects p.1), due, ready)
  ],
)

pub RestsIn-later :
    (interval before now : ℕ) (last : Option ℕ) (o : Option Key)
    → before ≤ now
    → RestsIn interval last before o
    → RestsIn interval last now o
RestsIn-later interval before now last none le h = h
RestsIn-later interval before now last (some key) le h =
    Rests-later interval before now last key le h

pub stays-Follows :
    (b before now : ℕ) (last : Option ℕ) (c : IdentifyCoordinator)
    → Ready b last before c
    → before ≤ now
    → Follows b c.interval last now (c, [])
unfolding Ready Follows count_on
stays-Follows b before now last c (open_still, filed, rests) le =
    let later = RestsIn-later c.interval before now last (find_key b c.keys) le rests in
    (refl, inl (refl, (open_still, filed, later)))
