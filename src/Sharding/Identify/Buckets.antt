-- ===== src/Sharding/Identify/Buckets.antt =====
-- One bucket of identify.ts: its key, the requests filed under it and its grants.
use lunibee.Base.{
  ℕ, suc, ◌+◌, ◌%◌, ◌≤◌, ◌≡◌, ◌⊎◌, inl, inr, refl, sym, false, Option, none, some, List, [], ◌∷◌,
  ◌++◌, arith, ◌==◌, if◌then◌else◌, is_some, All, Bool-cases, ltb, ltb-false→le, false≢true,
}
use lunibee.Sharding.Identify.State.{Key, Waiter, Holder, Effect, granted}
use lunibee.Sharding.Identify.Pumping.{Round, pump_key, pump_waiter, is_spent}
use lunibee.Sharding.Identify.Calls.{find_key}

-- How many grants there are on a bucket.
unfoldable pub count_on : ℕ → List Effect → ℕ
count_on b [] = 0
count_on b (granted owner shard_id bucket waited ∷ es) =
    let rest = count_on b es in if bucket == b then suc rest else rest
count_on b (_ ∷ es) = count_on b es

pub count_on-append :
    (b : ℕ) (xs ys : List Effect) → count_on b (xs ++ ys) ≡ count_on b xs + count_on b ys
unfolding count_on
count_on-append b [] ys = omega arith
count_on-append b (granted owner shard_id bucket waited ∷ xs) ys =
    ground (arith, count_on-append b xs ys)
count_on-append b (_ ∷ xs) ys = count_on-append b xs ys

-- The requests of a key are those of its bucket.
abbrev pub IsFiledAt : ℕ → ℕ → List Waiter → Type 0
IsFiledAt max_concurrency index = All (λ w. w.shard_id % max_concurrency ≡ index)

-- The keys are a map by bucket.
abbrev pub Filed : ℕ → List (ℕ × Key) → Type 0
Filed max_concurrency [] = Unit
Filed max_concurrency ((index, key) ∷ ks) =
    IsFiledAt max_concurrency index key.queue
    × (find_key index ks ≡ none)
    × Filed max_concurrency ks

-- What follows the last grant on a bucket: it is over at `now`, and a free key rests long enough.
abbrev pub Rests : ℕ → Option ℕ → ℕ → Key → Type 0
Rests interval none now key = Unit
Rests interval (some t) now key =
    (is_some key.holder ≡ false → t + interval ≤ key.next_at) × (t ≤ now)

-- A grant may follow the last one.
abbrev pub Due : ℕ → Option ℕ → ℕ → Type 0
Due interval none now = Unit
Due interval (some t) now = t + interval ≤ now

-- What a pump at `now` does on a bucket: nothing, or one grant that may follow the last one.
abbrev pub Outcome : ℕ → ℕ → Option ℕ → ℕ → List Effect → Key → Type 0
Outcome b interval last now effects key =
    ((count_on b effects ≡ 0) × Rests interval last now key)
    ⊎ ((count_on b effects ≡ 1) × Due interval last now × Rests interval (some now) now key)

pub Rests-later :
    (interval before now : ℕ) (last : Option ℕ) (key : Key)
    → before ≤ now
    → Rests interval last before key
    → Rests interval last now key
Rests-later interval before now none key le h = tt
Rests-later interval before now (some t) key le (rest, past) = (rest, omega (arith, le, past))

Due-Rests :
    (interval before now : ℕ) (last : Option ℕ) (key : Key)
    → is_some key.holder ≡ false
    → key.next_at ≤ now
    → Rests interval last before key
    → Due interval last now
Due-Rests interval before now none key idle le h = tt
Due-Rests interval before now (some t) key idle le (rest, past) = omega (arith, rest idle, le)

module _ (max_concurrency now : ℕ) (reset_at : Option ℕ) (r : Round) where
  queue-other :
      (b index next_at : ℕ) (holder : Option Holder) (queue : List Waiter)
      → IsFiledAt max_concurrency index queue
      → (index == b) ≡ false
      → count_on b
          (pump_key max_concurrency now reset_at r
            (record { queue = queue; holder = holder; next_at = next_at })).2
        ≡ 0
  unfolding pump_key pump_waiter count_on
  queue-other b index next_at (some h) queue filed other = refl
  queue-other b index next_at none [] filed other = refl
  queue-other b index next_at none (w ∷ ws) (same, filed) other = ground (arith, same, other)

  queue-mine :
      (b interval before next_at : ℕ) (last : Option ℕ) (holder : Option Holder)
      (queue : List Waiter)
      → IsFiledAt max_concurrency b queue
      → before ≤ now
      → Rests interval last before (record { queue = queue; holder = holder; next_at = next_at })
      → let p =
          pump_key max_concurrency now reset_at r
            (record { queue = queue; holder = holder; next_at = next_at }) in
        Outcome b interval last now p.2 p.1
  unfolding pump_key pump_waiter count_on
  queue-mine b interval before next_at last (some h) queue filed le rests =
      inl (refl, Rests-later interval before now last _ le rests)
  queue-mine b interval before next_at last none [] filed le rests =
      inl (refl, Rests-later interval before now last _ le rests)
  queue-mine b interval before next_at last none (w ∷ ws) (same, filed) le rests =
      let key : Key = record { queue = w ∷ ws; holder = none; next_at = next_at } in
      elim (Bool-cases (ltb now next_at)) [
        | inl e ↦ rw e (inl (refl, Rests-later interval before now last key le rests))
        | inr e ↦ elim (Bool-cases (is_spent r.remaining)) [
          | inl s ↦ rw (e, s) (inl (refl, Rests-later interval before now last key le rests))
          | inr s ↦
              rw (e, s)
                (inr (
                  ground (arith, same),
                  Due-Rests interval before now last key refl (ltb-false→le now next_at e) rests,
                  (λ h. absurd (false≢true (sym h)), omega arith),
                ))
        ]
      ]

  pub pump_key-other :
      (b index : ℕ) (key : Key)
      → IsFiledAt max_concurrency index key.queue
      → (index == b) ≡ false
      → count_on b (pump_key max_concurrency now reset_at r key).2 ≡ 0
  pump_key-other b index key filed other =
      queue-other b index key.next_at key.holder key.queue filed other

  pub pump_key-mine :
      (b interval before : ℕ) (last : Option ℕ) (key : Key)
      → IsFiledAt max_concurrency b key.queue
      → before ≤ now
      → Rests interval last before key
      → let p = pump_key max_concurrency now reset_at r key in Outcome b interval last now p.2 p.1
  pump_key-mine b interval before last key filed le rests =
      queue-mine b interval before key.next_at last key.holder key.queue filed le rests

  pub queue-filed :
      (index next_at : ℕ) (holder : Option Holder) (queue : List Waiter)
      → IsFiledAt max_concurrency index queue
      → IsFiledAt max_concurrency index
          (pump_key max_concurrency now reset_at r
            (record { queue = queue; holder = holder; next_at = next_at })).1.queue
  unfolding pump_key pump_waiter
  queue-filed index next_at (some h) queue filed = filed
  queue-filed index next_at none [] filed = filed
  queue-filed index next_at none (w ∷ ws) (same, filed) = elim (Bool-cases (ltb now next_at)) [
    | inl e ↦ rw e (same, filed)
    | inr e ↦ elim (Bool-cases (is_spent r.remaining)) [
      | inl s ↦ rw (e, s) (same, filed)
      | inr s ↦ rw (e, s) filed
    ]
  ]
