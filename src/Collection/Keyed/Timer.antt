-- ===== src/Collection/Keyed/Timer.antt =====
-- The timer of packages/collection/src/index.ts and the lifetimes of keys.
use lunibee.Base.{ℕ, ◌≤◌, ◌≡◌, ◌≢◌, refl, ap, ◌∙◌, max, Option, none, some, true, arith}
use mathlib.Core.Option.{some-injective}
use lunibee.Collection.Maps.{find}
use lunibee.Collection.Policy.{Entry, Policy}
use lunibee.Collection.Filed.Quiet.{gist}
use lunibee.Collection.Filed.Armed.{rings_by, rings_before}
use lunibee.Collection.Store.{Collection}
use lunibee.Collection.Keyed.{ring, kept_of}
use lunibee.Collection.Store.Sweeps.{IsSoundAt-later}
use lunibee.Collection.Store.Model.{bind, model, lifetime, alive}
use lunibee.Collection.Keyed.Meaning.{IsSound, meaning}
use lunibee.Collection.Keyed.Setting.{ring-Purges}

abbrev pub timer_of : {V : Type 0} → Option (Policy V) → Option ℕ
timer_of none = none
timer_of (some p) = p.timer

-- A lifetime comes from an entry with a window.
entry_of :
    {V : Type 0} (item : Option V) (found : Option (Entry V)) (value : V) (window deadline : ℕ)
    → bind item (gist found) ≡ some (value, some (window, deadline))
    → (e : Entry V) × (found ≡ some e) × (e.window ≢ 0) × (e.deadline ≡ deadline)
entry_of none found value window deadline same = absurd (ground (arith, same))
entry_of (some u) none value window deadline same =
    absurd (ground (arith, ap (λ b. b.1) (some-injective _ _ same)))
entry_of (some u) (some e) value window deadline same =
    let lives : lifetime (gist (some e)) ≡ some (window, deadline) =
      ap (λ b. b.1) (some-injective _ _ same) in
    (e, refl, ground (arith, lives), ground (arith, lives))

rings_in_time :
    (timer armed : Option ℕ) (filed deadline now : ℕ)
    → rings_by timer armed now ≡ true
    → rings_before timer armed filed ≡ true
    → filed ≤ deadline
    → (t : ℕ) × (timer ≡ some t) × (t ≤ max deadline now)
rings_in_time none armed filed deadline now by before le = absurd (ground arith)
rings_in_time (some t) none filed deadline now by before le = absurd (ground arith)
rings_in_time (some t) (some a) filed deadline now by before le = (t, refl, ground arith)

timer_by :
    {V : Type 0} (c : Collection V) (policy : Option (Policy V)) (now key : ℕ) (value : V)
    (window deadline : ℕ)
    → IsSound (record c { policy = policy }) now
    → meaning (record c { policy = policy }) key ≡ some (value, some (window, deadline))
    → (t : ℕ) × (timer_of policy ≡ some t) × (t ≤ max deadline now)
unfolding model
timer_by c none now key value window deadline s bound =
    let (e, found, timed, level) = entry_of (find key c.items) none value window deadline bound in
    absurd (ground (arith, found))
timer_by c (some p) now key value window deadline s bound =
    let (e, found, timed, level) =
      entry_of (find key c.items) (find key p.entries) value window deadline bound in
    rings_in_time p.timer p.armed_for e.filed deadline now s.1.alarm (s.1.covers key e found timed)
      (ground (arith, s.0.filed.early key e found timed, level))

lapse :
    {V : Type 0} (value : V) (window deadline now : ℕ)
    → deadline ≤ now
    → alive (some (value, some (window, deadline))) now ≡ none
lapse value window deadline now due = ground arith

-- Time passes.
pub IsSound-later :
    {V : Type 0} (c : Collection V) (policy : Option (Policy V)) (now later : ℕ)
    → now ≤ later
    → IsSound (record c { policy = policy }) now
    → IsSound (record c { policy = policy }) later
IsSound-later c none now later le s = s
IsSound-later c (some p) now later le s = IsSoundAt-later (kept_of c p) now later le s

module _ {V : Type 0} (c : Collection V) (now key : ℕ) (value : V) (window deadline : ℕ)
    (s : IsSound c now) (bound : meaning c key ≡ some (value, some (window, deadline))) where
  pub timer_in_time : (t : ℕ) × (timer_of c.policy ≡ some t) × (t ≤ max deadline now)
  timer_in_time = timer_by c c.policy now key value window deadline s bound

  -- For a key with a lifetime there is a timer, which fires by the
  -- deadline, or at once if that has passed; and a timer that fires at a time not before now and not before the
  -- deadline leaves the key unbound.
  pub timer_drops :
      (u : ℕ)
      → now ≤ u
      → deadline ≤ u
      → ((t : ℕ) × (timer_of c.policy ≡ some t) × (t ≤ max deadline now))
        × (meaning (ring c u) key ≡ none)
  timer_drops u later due =
      let purged = ring-Purges c u (IsSound-later c c.policy now u later s) in
      (timer_in_time, purged.1 key ∙ rw bound (lapse value window deadline u due))
