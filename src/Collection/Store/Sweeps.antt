-- ===== src/Collection/Store/Sweeps.antt =====
-- `purge`, `#expireIfDue` and the timer of packages/collection/src/index.ts.
use lunibee.Base.{
  ℕ, ◌≢◌, ◌+◌, ◌≤◌, ◌≡◌, refl, ap, ◌∙◌, sym, subst, Option, none, some, List, [], ◌∷◌, true, leb,
  length, Bool-cases, inl, inr, arith,
}
use lunibee.Collection.Heap.Count.{count-nil}
use lunibee.Collection.Policy.{filing, Policy, EvictionReason, rearm, notify, expired}
use lunibee.Collection.Filed.Settle.{emptied}
use lunibee.Collection.Filed.Quiet.{Quiet-refl, gist, gist-faces, gist-Quiet}
use lunibee.Collection.Filed.Armed.{IsPolicyArmed, rings_by, rearm_lem, IsLeast-of_heap}
use lunibee.Collection.Store.{is_due, find, Kept, purge_loop, purge_kept, notify_all, count_expired}
use lunibee.Collection.Store.Purge.{
  IsKept, Purged, purge_loop-Looped, stop-Looped, settled-IsKept, Looped,
}

pub rings_by_later :
    (timer armed : Option ℕ) (now later : ℕ)
    → now ≤ later
    → rings_by timer armed now ≡ true
    → rings_by timer armed later ≡ true
rings_by_later none armed now later le rings = refl
rings_by_later (some t) none now later le rings = rings
rings_by_later (some t) (some a) now later le rings = ground arith

-- A deadline is at most a window ahead.
abbrev pub IsFresh : {V : Type 0} → Option (V × ℕ × ℕ) → ℕ → Type 0
IsFresh none now = Unit
IsFresh (some (_, window, deadline)) now = window ≢ 0 → deadline ≤ now + window

-- A collection with a policy is sound at `now`.
abbrev pub IsSoundAt : {V : Type 0} → Kept V → ℕ → Type 0
IsSoundAt k now =
    IsKept k
    × IsPolicyArmed k.policy now
    × ((key : ℕ) → IsFresh (gist (find key k.policy.entries)) now)

pub IsPolicyArmed_later :
    {V : Type 0} (p : Policy V) (now later : ℕ)
    → now ≤ later
    → IsPolicyArmed p now
    → IsPolicyArmed p later
IsPolicyArmed_later p now later le a = record {
  alarm = rings_by_later p.timer p.armed_for now later le a.alarm;
  covers = a.covers;
}

IsFresh-later :
    {V : Type 0} (g : Option (V × ℕ × ℕ)) (now later : ℕ)
    → now ≤ later
    → IsFresh g now
    → IsFresh g later
IsFresh-later none now later le fresh = tt
IsFresh-later (some (v, w, d)) now later le fresh = λ timed. omega (arith, fresh timed)

-- Time passes.
pub IsSoundAt-later :
    {V : Type 0} (k : Kept V) (now later : ℕ) → now ≤ later → IsSoundAt k now → IsSoundAt k later
IsSoundAt-later k now later le (kept, armed, fresh) = (
  kept,
  IsPolicyArmed_later k.policy now later le armed,
  λ key. IsFresh-later (gist (find key k.policy.entries)) now later le (fresh key),
)

-- A call of `#notify` adds to its log.
pub notify_log :
    {V : Type 0} (p : Policy V) (key : ℕ) (value : Option V) (reason : EvictionReason)
    → (log : List (ℕ × Option V × EvictionReason)) × (notify p key value reason
        ≡ record p { notified = log })
unfolding notify
notify_log p key value reason = elim (Bool-cases p.on_evict) [
  | inl called ↦ rw called ((key, value, reason) ∷ p.notified, refl)
  | inr quiet ↦ rw quiet (p.notified, refl)
]

pub notify_all_log :
    {V : Type 0} (p : Policy V) (dropped : List (ℕ × Option V))
    → (log : List (ℕ × Option V × EvictionReason)) × (notify_all p dropped
        ≡ record p { notified = log })
notify_all_log p [] = (p.notified, refl)
notify_all_log p ((key, value) ∷ dropped) =
    let (log, same) = notify_log p key value expired in
    let (log', same') = notify_all_log (record p { notified = log }) dropped in
    (log', ap (λ q. notify_all q dropped) same ∙ same')

empty_of_length : {A : Type 0} (xs : List A) → leb (length xs) 0 ≡ true → xs ≡ []
empty_of_length [] empty = refl
empty_of_length (x ∷ xs) empty = absurd (ground arith)

-- Without a record in the heap no entry is timed.
idle-Purged :
    {V : Type 0} (k : Kept V) (now : ℕ)
    → IsKept k
    → leb (length k.policy.heap) 0 ≡ true
    → Purged k now k
idle-Purged k now w empty =
    (stop-Looped k now w k.policy none w.filed
      (IsLeast-of_heap k.policy none w.filed (emptied (empty_of_length k.policy.heap empty)))
      (Quiet-refl k.policy) refl refl).0

idle-IsPolicyArmed :
    {V : Type 0} (k : Kept V) (now : ℕ)
    → IsKept k
    → rings_by k.policy.timer k.policy.armed_for now ≡ true
    → leb (length k.policy.heap) 0 ≡ true
    → IsPolicyArmed k.policy now
idle-IsPolicyArmed k now w alarm empty = record {
  alarm = alarm;
  covers = λ key e there timed.
      let held = w.filed.covered key e there timed in
      absurd
        (ground (arith, rw (empty_of_length k.policy.heap empty) at held, count-nil (filing e)));
}

module _ {V : Type 0} (k : Kept V) (now : ℕ) (w : IsKept k)
    (alarm : rings_by k.policy.timer k.policy.armed_for now ≡ true) where
  -- The state after the loop, the timer and the callbacks.
  finish-Purged :
      (last : Kept V) (n : ℕ) (dropped : List (ℕ × Option V))
      → Looped k now last
      → let k' : Kept V = record {
        items = last.items;
        policy = notify_all (rearm (count_expired last.policy n) now) dropped;
      } in
        Purged k now k' × IsPolicyArmed k'.policy now
  finish-Purged last n dropped (purged, same_alarm) =
      let p = count_expired last.policy n in
      let r =
        rearm_lem p now purged.kept.filed
          (subst (λ a. rings_by a.0 a.1 now ≡ true) (sym same_alarm) alarm) in
      let q = rearm p now in
      let kept = settled-IsKept last q purged.kept r.filed (gist-Quiet p q r.quiet) in
      let (log, same) = notify_all_log q dropped in
      subst
        (λ (policy : Policy V).
          Purged k now (record { items = last.items; policy = policy }) × IsPolicyArmed policy now)
        (sym same)
        (
          record {
            kept = record { filed = kept.filed; maps = kept.maps; copied = kept.copied };
            items = purged.items;
            entries = λ key. r.quiet.looks key ∙ purged.entries key;
          },
          r.armed,
        )

  -- `purge` drops what has lapsed and nothing else, and arms the timer for the rest.
  pub purge_kept-Purged :
      Purged k now ((purge_kept k now).0) × IsPolicyArmed ((purge_kept k now).0).policy now
  unfolding purge_kept
  purge_kept-Purged = elim (Bool-cases (leb (length k.policy.heap) 0)) [
    | inl empty ↦ rw empty (idle-Purged k now w empty, idle-IsPolicyArmed k now w alarm empty)
    | inr filled ↦ rw filled (
        let looped = purge_loop (length k.policy.heap + 1) k now in
        finish-Purged looped.0 (length looped.1) looped.1
          (purge_loop-Looped (length k.policy.heap + 1) k now w (omega arith)))
  ]

  -- The collection that `purge` leaves is sound.
  pub purge_kept-IsSoundAt :
      ((key : ℕ) → IsFresh (gist (find key k.policy.entries)) now)
      → IsSoundAt ((purge_kept k now).0) now
  purge_kept-IsSoundAt fresh =
      let (purged, armed) = purge_kept-Purged in
      let last = (purge_kept k now).0 in
      (
        purged.kept,
        armed,
        λ key. elim (Bool-cases (is_due (find key k.policy.entries) now)) [
          | inl due ↦
              subst (λ g. IsFresh g now)
                (sym (ap gist (rw due at (purged.entries key)))
                  ∙ gist-faces (find key last.policy.entries))
                tt
          | inr live ↦
              subst (λ g. IsFresh g now)
                (sym (gist-faces (find key k.policy.entries))
                  ∙ (sym (ap gist (rw live at (purged.entries key)))
                      ∙ gist-faces (find key last.policy.entries)))
                (fresh key)
        ],
      )
