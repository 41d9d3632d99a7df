-- ===== src/Collection/Filed/Armed.antt =====
-- `#rearm` of packages/collection/src/index.ts.
use lunibee.Base.{
  ℕ, ◌<◌, ◌≡◌, ◌≢◌, refl, sym, subst, max, Option, none, some, List, ◌∷◌, leb, Bool, true, false,
  ◌&&◌, is_some, Bool-cases, inl, inr, arith,
}
use lunibee.Collection.Maps.{find}
use lunibee.Collection.Heap.Order.{IsHeap}
use lunibee.Collection.Heap.Count.{count, count-cons, count-nil, top_first}
use lunibee.Collection.Policy.{Entry, Policy, filing, next_deadline, rearm, arm, no_earlier}
use lunibee.Collection.Filed.Settle.{
  IsPolicyFiled, IsSettled, emptied, topped, next_deadline-Settles,
}
use lunibee.Collection.Filed.Quiet.{Quiet, Quiet-trans}

-- A timer fires by the deadline that it is armed for, or by `now`.
abbrev pub rings_by : Option ℕ → Option ℕ → ℕ → Bool
rings_by none armed now = true
rings_by (some t) none now = false
rings_by (some t) (some a) now = leb t (max a now)

-- There is a timer, and it is armed for `filed` or an earlier time.
abbrev pub rings_before : Option ℕ → Option ℕ → ℕ → Bool
rings_before none armed filed = false
rings_before (some t) none filed = false
rings_before (some t) (some a) filed = leb a filed

pub record IsArmed {V : Type 0} (E : List (ℕ × Entry V)) (timer armed : Option ℕ) (now : ℕ)
    : Type 0 where
  pub alarm : rings_by timer armed now ≡ true
  pub covers :
      (k : ℕ) (e : Entry V)
      → find k E ≡ some e
      → e.window ≢ 0
      → rings_before timer armed e.filed ≡ true

abbrev pub IsPolicyArmed : {V : Type 0} → Policy V → ℕ → Type 0
IsPolicyArmed p now = IsArmed p.entries p.timer p.armed_for now

-- `#nextDeadline` returns the least deadline, Infinity if no entry has one.
abbrev pub IsLeast : {V : Type 0} → List (ℕ × Entry V) → Option ℕ → Type 0
IsLeast {V} E least =
    (k : ℕ) (e : Entry V)
    → find k E ≡ some e
    → e.window ≢ 0
    → no_earlier (some e.filed) least ≡ true

pub IsLeast-of_heap :
    {V : Type 0} (q : Policy V) (least : Option ℕ)
    → IsPolicyFiled q
    → IsSettled q least
    → IsLeast q.entries least
IsLeast-of_heap q none w (emptied empty) = λ k e there timed.
    absurd (ground (arith, rw empty at (w.covered k e there timed), count-nil (filing e)))
IsLeast-of_heap q (some t) w (topped x h e heap there live level) = λ k d found timed.
    let held : 0 < count (filing d) (x ∷ h) = rw heap at (w.covered k d found timed) in
    let first = top_first (filing d) x h (subst IsHeap heap w.ordered) held in
    let top : 0 < count x q.heap = rw heap (ground (arith, count-cons x x h)) in
    ground (arith, first, w.agrees x e top there live)

pub next_deadline-IsLeast :
    {V : Type 0} (p : Policy V)
    → IsPolicyFiled p
    → IsLeast ((next_deadline p).0).entries ((next_deadline p).1)
next_deadline-IsLeast p w = let s = next_deadline-Settles p w in IsLeast-of_heap _ _ s.0 s.1

-- `#rearm` at `now`, whatever the timer was armed for.
pub record Rearmed {V : Type 0} (p : Policy V) (now : ℕ) (q : Policy V) : Type 0 where
  pub filed : IsPolicyFiled q
  pub armed : IsPolicyArmed q now
  pub quiet : Quiet p q

arm-IsArmed :
    {V : Type 0} (q : Policy V) (now : ℕ) (least : Option ℕ)
    → IsLeast q.entries least
    → IsPolicyArmed (arm q now least) now
arm-IsArmed q now none low = record {
  alarm = refl;
  covers = λ k e there timed. absurd (ground (arith, low k e there timed));
}
arm-IsArmed q now (some t) low = record {
  alarm = ground arith;
  covers = λ k e there timed. low k e there timed;
}

arm-Quiet : {V : Type 0} (q : Policy V) (now : ℕ) (least : Option ℕ) → Quiet q (arm q now least)
arm-Quiet q now none = record { looks = λ k. refl; others = refl }
arm-Quiet q now (some t) = record { looks = λ k. refl; others = refl }

arm-IsPolicyFiled :
    {V : Type 0} (q : Policy V) (now : ℕ) (least : Option ℕ)
    → IsPolicyFiled q
    → IsPolicyFiled (arm q now least)
arm-IsPolicyFiled q now none w = w
arm-IsPolicyFiled q now (some t) w = w

rings_of_least :
    (timer armed least : Option ℕ) (filed : ℕ)
    → is_some timer && no_earlier least armed ≡ true
    → no_earlier (some filed) least ≡ true
    → rings_before timer armed filed ≡ true
rings_of_least none armed least filed early low = absurd (ground arith)
rings_of_least (some t) armed none filed early low = absurd (ground arith)
rings_of_least (some t) none (some d) filed early low = absurd (ground arith)
rings_of_least (some t) (some a) (some d) filed early low = ground arith

pub rearm_lem :
    {V : Type 0} (p : Policy V) (now : ℕ)
    → IsPolicyFiled p
    → rings_by p.timer p.armed_for now ≡ true
    → Rearmed p now (rearm p now)
unfolding rearm
rearm_lem p now w alarm =
    let (filed, settled, quiet, same, shorter) = next_deadline-Settles p w in
    let q = (next_deadline p).0 in
    let least = (next_deadline p).1 in
    let low = next_deadline-IsLeast p w in
    elim (Bool-cases (is_some q.timer && no_earlier least q.armed_for)) [
      | inl early ↦ rw early (record {
        filed = filed;
        armed = record {
          alarm = subst (λ a. rings_by a.0 a.1 now ≡ true) (sym same) alarm;
          covers = λ k e there timed.
              rings_of_least q.timer q.armed_for least e.filed early (low k e there timed);
        };
        quiet = quiet;
      })
      | inr late ↦ rw late (record {
        filed = arm-IsPolicyFiled q now least filed;
        armed = arm-IsArmed q now least low;
        quiet = Quiet-trans quiet (arm-Quiet q now least);
      })
    ]
