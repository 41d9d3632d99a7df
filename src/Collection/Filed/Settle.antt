-- ===== src/Collection/Filed/Settle.antt =====
-- `#nextDeadline` of packages/collection/src/index.ts: the passes of its loop.
use lunibee.Base.{
  ℕ, zero, suc, ◌+◌, ◌*◌, ◌<◌, ◌≤◌, ◌≡◌, ◌≢◌, refl, ap, subst, ◌∙◌, sym, false, not, Option, none,
  some, List, [], ◌∷◌, ◌==◌, ◌&&◌, if◌then◌else◌, Bool-cases, inl, inr, arith, length,
}
use lunibee.Collection.Maps.{find, put}
use lunibee.Collection.Maps.Laws.{find-put}
use lunibee.Collection.Heap.{Filing, heap_push, heap_pop}
use lunibee.Collection.Heap.Arrays.{total}
use lunibee.Collection.Heap.Up.{heap_push-total}
use lunibee.Collection.Heap.Down.{heap_pop-total}
use lunibee.Collection.Heap.Count.{length-heap_push, length-heap_pop}
use lunibee.Collection.Policy.{
  Entry, Policy, filing, is_live, pass, pass_top, settle, next_deadline, refile, pop_top,
}
use lunibee.Collection.Filed.{IsFiled}
use lunibee.Collection.Filed.Quiet.{Quiet, Quiet-refl, Quiet-trans, put-faces}
use lunibee.Collection.Filed.Moves.{pop_stale-IsFiled, refile-IsFiled}

abbrev pub IsPolicyFiled : {V : Type 0} → Policy V → Type 0
IsPolicyFiled p = IsFiled p.entries p.heap p.next_id

-- The passes of the loop that a record of the heap can still take.
abbrev passes : {V : Type 0} → List (ℕ × Entry V) → Filing → ℕ
passes E f = elim (find f.key E) [
  | none ↦ 1
  | some e ↦ if e.id == f.id && not (e.deadline == e.filed) then 2 else 1
]

total-le : (v w : Filing → ℕ) (h : List Filing) → ((f : Filing) → v f ≤ w f) → total v h ≤ total w h
unfolding total
total-le v w [] le = omega arith
total-le v w (x ∷ h) le = omega (arith, le x, total-le v w h le)

total-passes-le :
    {V : Type 0} (E : List (ℕ × Entry V)) (h : List Filing) → total (passes E) h ≤ 2 * length h
unfolding total
total-passes-le E [] = omega arith
total-passes-le E (x ∷ h) = ground (arith, total-passes-le E h)

module _ {V : Type 0} (E : List (ℕ × Entry V)) (e : Entry V) (level : e.deadline ≡ e.filed) where
  passes_level : passes (put e.key e E) (filing e) ≡ 1
  passes_level = ground (arith, find-put e.key e.key e E)

  passes_less : (f : Filing) → passes (put e.key e E) f ≤ passes E f
  passes_less f = ground (arith, find-put e.key f.key e E)

-- What the loop of `#nextDeadline` returns with.
pub data IsSettled {V : Type 0} (q : Policy V) : Option ℕ → Type 0 where
  emptied : q.heap ≡ [] → IsSettled q none
  topped :
      (x : Filing) (h : List Filing) (e : Entry V)
      → q.heap ≡ x ∷ h
      → find x.key q.entries ≡ some e
      → e.id ≡ x.id
      → e.deadline ≡ e.filed
      → IsSettled q (some e.filed)

abbrev pub alarm_of : {V : Type 0} → Policy V → Option ℕ × Option ℕ
alarm_of p = (p.timer, p.armed_for)

-- `#nextDeadline` returns from `p` with `r`.
abbrev pub Settles : {V : Type 0} → Policy V → Policy V × Option ℕ → Type 0
Settles p r =
    IsPolicyFiled r.0
    × IsSettled r.0 r.1
    × Quiet p r.0
    × (alarm_of r.0 ≡ alarm_of p)
    × (length r.0.heap ≤ length p.heap)

pub length-pop_top :
    {V : Type 0} (p : Policy V) (x : Filing) (h : List Filing)
    → p.heap ≡ x ∷ h
    → length (heap_pop p.heap) + 1 ≡ length p.heap
length-pop_top p x h heap = rw heap (length-heap_pop x h)

length-refile :
    {V : Type 0} (p : Policy V) (x : Filing) (h : List Filing)
    → p.heap ≡ x ∷ h
    → (e : Entry V) → length (refile p e).heap ≡ length p.heap
length-refile p x h heap e = omega (
  arith,
  length-pop_top p x h heap,
  length-heap_push (heap_pop p.heap) (filing (record e { filed = e.deadline })),
)

module _ {V : Type 0} (p : Policy V) (w : IsPolicyFiled p) where
  passes-pop :
      (x : Filing) (h : List Filing)
      → p.heap ≡ x ∷ h
      → total (passes p.entries) (heap_pop p.heap) < total (passes p.entries) p.heap
  passes-pop x h e = rw e (ground (arith, heap_pop-total (passes p.entries) x h))

  pub pop_top-IsFiled :
      (x : Filing) (h : List Filing)
      → p.heap ≡ x ∷ h
      → is_live p.entries x ≡ false
      → IsPolicyFiled (pop_top p)
  pop_top-IsFiled x h e stale =
      subst (λ H. IsFiled p.entries (heap_pop H) p.next_id) (sym e)
        (pop_stale-IsFiled p.entries x h p.next_id (subst (λ H. IsFiled p.entries H p.next_id) e w)
          stale)

  module _ (x : Filing) (h : List Filing) (heap : p.heap ≡ x ∷ h) (e : Entry V)
      (there : find x.key p.entries ≡ some e) (live : e.id ≡ x.id)
      (moved : e.deadline ≢ e.filed) where
    refile-IsPolicyFiled : IsPolicyFiled (refile p e)
    refile-IsPolicyFiled =
        subst
          (λ H.
            IsFiled (refile p e).entries
              (heap_push (heap_pop H) (filing (record e { filed = e.deadline }))) p.next_id)
          (sym heap)
          (refile-IsFiled p.entries x h p.next_id e (record e { filed = e.deadline })
            (subst (λ H. IsFiled p.entries H p.next_id) heap w) there live moved refl refl refl)

    passes-refile :
        total (passes (refile p e).entries) (refile p e).heap < total (passes p.entries) p.heap
    passes-refile =
        let e' = record e { filed = e.deadline } in
        let E' = put e.key e' p.entries in
        let pushed = heap_push-total (passes E') (heap_pop p.heap) (filing e') in
        let last : passes E' (filing e') ≡ 1 = passes_level p.entries e' refl in
        let first : passes p.entries x ≡ 2 = ground (arith, there) in
        let popped : total (passes p.entries) (heap_pop p.heap) + passes p.entries x
            ≡ total (passes p.entries) p.heap =
          rw heap (heap_pop-total (passes p.entries) x h) in
        let less =
          total-le (passes E') (passes p.entries) (heap_pop p.heap)
            (passes_less p.entries e' refl) in
        omega (arith, pushed, last, first, popped, less)

refile-Quiet :
    {V : Type 0} (p : Policy V)
    → IsPolicyFiled p
    → (x : Filing) (e : Entry V) → find x.key p.entries ≡ some e
    → Quiet p (refile p e)
refile-Quiet p w x e there =
    let here : find e.key p.entries ≡ some e =
      ap (λ k. find k p.entries) (w.keyed x.key e there) ∙ there in
    record {
      looks = put-faces p.entries e (record e { filed = e.deadline }) here refl refl;
      others = refl;
    }

module _ {V : Type 0} (p : Policy V) (w : IsPolicyFiled p) (popped : Policy V × Option ℕ)
    (again : Entry V → Policy V × Option ℕ)
    (stale : (x : Filing) (h : List Filing)
      → p.heap ≡ x ∷ h
      → is_live p.entries x ≡ false
      → Settles p popped)
    (moved : (x : Filing) (h : List Filing) (e : Entry V)
      → p.heap ≡ x ∷ h
      → find x.key p.entries ≡ some e
      → e.id ≡ x.id
      → e.deadline ≢ e.filed
      → Settles p (again e)) where
  pass_top-Settles :
      (x : Filing) (h : List Filing) (found : Option (Entry V))
      → p.heap ≡ x ∷ h
      → find x.key p.entries ≡ found
      → Settles p (pass_top p popped again x found)
  unfolding pass_top
  pass_top-Settles x h none heap there = stale x h heap (ground (arith, there))
  pass_top-Settles x h (some e) heap there = elim (Bool-cases (e.id == x.id)) [
    | inr other ↦ rw other (stale x h heap (ground (arith, there)))
    | inl same ↦ elim (Bool-cases (e.deadline == e.filed)) [
      | inl level ↦
          rw (same, level)
            (
              w,
              topped x h e heap there (ground arith) (ground arith),
              Quiet-refl p,
              refl,
              omega arith,
            )
      | inr later ↦ rw (same, later) (moved x h e heap there (ground arith) (ground arith))
    ]
  ]

  pass-Settles : (h : List Filing) → p.heap ≡ h → Settles p (pass p popped again h)
  unfolding pass
  pass-Settles [] e = (w, emptied e, Quiet-refl p, refl, omega arith)
  pass-Settles (x ∷ h) e = pass_top-Settles x h (find x.key p.entries) e refl

settle-Settles :
    {V : Type 0} (fuel : ℕ) (p : Policy V)
    → IsPolicyFiled p
    → total (passes p.entries) p.heap < fuel
    → Settles p (settle fuel p)
unfolding settle
settle-Settles zero p w f = absurd (omega arith)
settle-Settles (suc fuel) p w f =
    pass-Settles p w (settle fuel (pop_top p)) (λ e. settle fuel (refile p e))
      (λ x h heap stale.
        let (filed, settled, quiet, alarm, shorter) =
          settle-Settles fuel (pop_top p) (pop_top-IsFiled p w x h heap stale)
            (omega (arith, passes-pop p w x h heap)) in
        (
          filed,
          settled,
          Quiet-trans (record { looks = λ k. refl; others = refl }) quiet,
          alarm,
          omega (arith, shorter, length-pop_top p x h heap),
        ))
      (λ x h e heap there live moved.
        let (filed, settled, quiet, alarm, shorter) =
          settle-Settles fuel (refile p e) (refile-IsPolicyFiled p w x h heap e there live moved)
            (omega (arith, passes-refile p w x h heap e there live moved)) in
        (
          filed,
          settled,
          Quiet-trans (refile-Quiet p w x e there) quiet,
          alarm,
          omega (arith, shorter, length-refile p x h heap e),
        ))
      p.heap refl

-- `#nextDeadline` ends: it returns with an empty heap and no deadline, or with a live record at the top
-- of the heap that is filed at its entry's deadline, which it returns. The entries and the heap agree
-- as before, and only where records are filed has changed.
pub next_deadline-Settles :
    {V : Type 0} (p : Policy V) → IsPolicyFiled p → Settles p (next_deadline p)
unfolding next_deadline
next_deadline-Settles p w =
    settle-Settles (2 * length p.heap + 1) p w (omega (arith, total-passes-le p.entries p.heap))
