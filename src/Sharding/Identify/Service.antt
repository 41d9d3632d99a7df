-- ===== src/Sharding/Identify/Service.antt =====
-- What `pump` of identify.ts leaves behind: no request that could be granted, and a timer in time
-- for the first that can be later.
use lunibee.Base.{
  ℕ, ◌+◌, ◌-◌, ◌*◌, ◌<◌, ◌≤◌, ◌≡◌, refl, suc, zero, Bool, true, false, not, ◌&&◌, ◌||◌, Option,
  none, some, List, [], ◌∷◌, arith, All, is_some, leb, ltb, leb→le, leb-false→lt, Bool-cases, ◌⊎◌,
  inl, inr,
}
use lunibee.Sharding.Identify.State.{IdentifyCoordinator, Key, Waiter}
use lunibee.Sharding.Identify.Pumping.{
  Round, pump_key, pump_waiter, pump_keys, pump_open, pump, rounds, after_rounds, arm, refill,
  is_spent, advance_reset,
}

-- `t` is armed, and no later than `deadline`.
abbrev in_time : Option ℕ → Option ℕ → Bool
in_time t none = true
in_time none (some deadline) = false
in_time (some t) (some deadline) = leb t deadline

abbrev is_empty : List Waiter → Bool
is_empty [] = true
is_empty (_ ∷ _) = false

-- A request waits for a key that nobody holds.
abbrev is_pending : Key → Bool
is_pending key = not (is_some key.holder || is_empty key.queue)

-- A pending key still rests, or the budget is spent; the timer is in time for the end of either.
abbrev is_served : ℕ → Option ℕ → Option ℕ → Option ℕ → Key → Bool
is_served now remaining reset_at armed key =
    not (is_pending key)
    || ltb now key.next_at && in_time armed (some key.next_at)
    || is_spent remaining && in_time armed reset_at

pump_key-served :
    (max_concurrency now : ℕ) (reset_at : Option ℕ) (r : Round) (key : Key)
    → let p = pump_key max_concurrency now reset_at r key in
      is_served now p.0.remaining reset_at p.0.next p.1 ≡ true
unfolding pump_key pump_waiter
pump_key-served max_concurrency now reset_at r key = ground arith

-- Later keys only spend more slots and arm the timer earlier.
abbrev Follows : Round → Round → Type 0
Follows r r' =
    (is_spent r.remaining ≡ true → is_spent r'.remaining ≡ true)
    × ((t : Option ℕ) → in_time r.next t ≡ true → in_time r'.next t ≡ true)

pump_key-Follows :
    (max_concurrency now : ℕ) (reset_at : Option ℕ) (r : Round) (key : Key)
    → Follows r (pump_key max_concurrency now reset_at r key).0
unfolding pump_key pump_waiter
pump_key-Follows max_concurrency now reset_at r key = (λ h. ground arith, λ t h. ground arith)

pump_keys-Follows :
    (max_concurrency now : ℕ) (reset_at : Option ℕ) (r : Round) (ks : List (ℕ × Key))
    → Follows r (pump_keys max_concurrency now reset_at r ks).0
unfolding pump_keys
pump_keys-Follows max_concurrency now reset_at r [] = (λ h. h, λ t h. h)
pump_keys-Follows max_concurrency now reset_at r ((index, key) ∷ ks) =
    let p = pump_key max_concurrency now reset_at r key in
    let (spent, timed) = pump_key-Follows max_concurrency now reset_at r key in
    let (spent', timed') = pump_keys-Follows max_concurrency now reset_at p.0 ks in
    (λ h. spent' (spent h), λ t h. timed' t (timed t h))

served-Follows :
    (now : ℕ) (reset_at : Option ℕ) (r r' : Round) (key : Key)
    → Follows r r'
    → is_served now r.remaining reset_at r.next key ≡ true
    → is_served now r'.remaining reset_at r'.next key ≡ true
served-Follows now reset_at r r' key (spent, timed) h =
    ground (arith, timed (some key.next_at), timed reset_at)

abbrev pub AllServed : ℕ → Option ℕ → Option ℕ → Option ℕ → List (ℕ × Key) → Type 0
AllServed now remaining reset_at armed =
    All (λ p. is_served now remaining reset_at armed p.1 ≡ true)

pump_keys-AllServed :
    (max_concurrency now : ℕ) (reset_at : Option ℕ) (r : Round) (ks : List (ℕ × Key))
    → let p = pump_keys max_concurrency now reset_at r ks in
      AllServed now p.0.remaining reset_at p.0.next p.1
unfolding pump_keys
pump_keys-AllServed max_concurrency now reset_at r [] = tt
pump_keys-AllServed max_concurrency now reset_at r ((index, key) ∷ ks) =
    let p = pump_key max_concurrency now reset_at r key in
    let q = pump_keys max_concurrency now reset_at p.0 ks in
    (
      served-Follows now reset_at p.0 q.0 p.1
          (pump_keys-Follows max_concurrency now reset_at p.0 ks)
          (pump_key-served max_concurrency now reset_at r key),
      pump_keys-AllServed max_concurrency now reset_at p.0 ks,
    )

-- The time of the armed timer.
abbrev pub armed_at : IdentifyCoordinator → Option ℕ
armed_at c = elim c.timer [ none ↦ none | some (handle, at) ↦ some at ]

arm-armed_at : (c : IdentifyCoordinator) (at : Option ℕ) → armed_at (arm c at) ≡ at
unfolding arm
arm-armed_at c at = ground arith

arm-state :
    (c : IdentifyCoordinator) (at : Option ℕ)
    → ((arm c at).remaining ≡ c.remaining)
      × ((arm c at).reset_at ≡ c.reset_at)
      × ((arm c at).keys ≡ c.keys)
unfolding arm
arm-state c at = ground arith

-- What `pump` leaves, by its parts.
pump_open-parts :
    (c : IdentifyCoordinator) (now : ℕ)
    → let d = (pump_open c now).0 in
      let p = rounds c now in
      (d.remaining ≡ p.0.remaining)
      × (d.reset_at ≡ (refill c now).reset_at)
      × (d.keys ≡ p.1)
      × (armed_at d ≡ p.0.next)
unfolding pump_open after_rounds
pump_open-parts c now =
    let p = rounds c now in
    let d = after_rounds (refill c now) p in
    let (left, reset, kept) = arm-state d p.0.next in (left, reset, kept, arm-armed_at d p.0.next)

rounds-AllServed :
    (c : IdentifyCoordinator) (now : ℕ)
    → let p = rounds c now in AllServed now p.0.remaining (refill c now).reset_at p.0.next p.1
unfolding rounds
rounds-AllServed c now =
    let d = refill c now in
    pump_keys-AllServed d.max_concurrency now d.reset_at
      (record { remaining = d.remaining; next = none; next_handle = d.next_handle }) d.keys

pump_open-AllServed :
    (c : IdentifyCoordinator) (now : ℕ)
    → let d = (pump_open c now).0 in AllServed now d.remaining d.reset_at (armed_at d) d.keys
pump_open-AllServed c now =
    let (left, reset, kept, armed) = pump_open-parts c now in
    rw (left, reset, kept, armed) (rounds-AllServed c now)

-- After a pump of a coordinator that is not closed every key that nobody holds and at which a
-- request waits is still resting, or the session budget is spent: no request that could be granted
-- is left waiting. The timer is then armed, no later than the end of the rest, or of the budget.
pub pump-AllServed :
    (c : IdentifyCoordinator) (now : ℕ)
    → c.closed ≡ false
    → let d = (pump c now).0 in AllServed now d.remaining d.reset_at (armed_at d) d.keys
unfolding pump
pump-AllServed c now h = ground (arith, pump_open-AllServed c now)

-- The loop reaches a time past `now` that a whole number of periods separates from the reset.
advance_reset-later :
    (fuel now period reset_at : ℕ)
    → 0 < period
    → now < reset_at + fuel
    → let t = advance_reset fuel now period reset_at in
      (now < t) × ((t ≤ now + period) ⊎ (t ≡ reset_at)) × ((k : ℕ) × (t ≡ reset_at + k * period))
unfolding advance_reset
advance_reset-later zero now period reset_at pos enough = (omega arith, inr refl, (0, omega arith))
advance_reset-later (suc fuel) now period reset_at pos enough =
    let (later, near, (k, whole)) =
      advance_reset-later fuel now period (reset_at + period) pos (omega (arith, pos, enough)) in
    elim (Bool-cases (leb reset_at now)) [
      | inl e ↦ rw e (
        later,
        inl (elim near [ inl le ↦ le | inr same ↦ omega (arith, same, leb→le reset_at now e) ]),
        (suc k, grind (arith, whole)),
      )
      | inr e ↦ rw e (leb-false→lt reset_at now e, inr refl, (0, omega arith))
    ]

-- When a pump finds the reset of a budget reached, the loop that moves the reset ends: the new one
-- lies after `now`, at most one period later and a whole number of periods after the old one, and
-- the budget is full before anything is granted.
pub refill-reset :
    (c : IdentifyCoordinator) (now total t : ℕ)
    → 0 < c.period
    → c.total ≡ some total
    → c.reset_at ≡ some t
    → t ≤ now
    → ((refill c now).remaining ≡ some total)
      × ((t' : ℕ) × ((refill c now).reset_at ≡ some t')
          × (now < t')
          × (t' ≤ now + c.period)
          × ((k : ℕ) × (t' ≡ t + k * c.period)))
unfolding refill
refill-reset c now total t pos known reset due =
    let (later, near, whole) =
      advance_reset-later (suc (now - t)) now c.period t pos (omega (arith, due)) in
    let t' = advance_reset (suc (now - t)) now c.period t in
    (
      ground arith,
      (
        t',
        ground arith,
        later,
        elim near [ inl le ↦ le | inr same ↦ omega (arith, same, later, due) ],
        whole,
      ),
    )
