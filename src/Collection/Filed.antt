-- ===== src/Collection/Filed.antt =====
-- How the entries and the expiry heap of a `Policy` of packages/collection/src/index.ts agree.
pub mod Quiet
pub mod Moves
pub mod Settle
pub mod Armed
pub mod Calls
pub mod Track
pub mod Forget
pub mod Tracked
use lunibee.Base.{
  ℕ, suc, ◌+◌, ◌<◌, ◌≤◌, ◌≡◌, ◌≢◌, refl, subst, Bool, true, false, Option, none, some, List, [],
  ◌∷◌, ◌==◌, ◌&&◌, if◌then◌else◌, Bool-cases, inl, inr, arith, Option-cases,
}
use mathlib.Core.Option.{some-injective}
use lunibee.Collection.Maps.{find, put, drop}
use lunibee.Collection.Maps.Laws.{IsMap, find-put, find-drop, put-IsMap, drop-IsMap}
use lunibee.Collection.Heap.{Filing, heap_push, heap_pop}
use lunibee.Collection.Heap.Order.{IsHeap}
use lunibee.Collection.Heap.Up.{heap_push-IsHeap}
use lunibee.Collection.Heap.Down.{heap_pop-IsHeap}
use lunibee.Collection.Heap.Count.{
  count, count-heap_push, count-heap_pop, count-cons, one_if_same, same_filing,
}
use lunibee.Collection.Policy.{Entry, filing}

-- Each timed entry has its record in the heap, and a record of the heap that is live is filed where
-- its entry says.
pub record IsFiled {V : Type 0} (E : List (ℕ × Entry V)) (H : List Filing) (n : ℕ) : Type 0 where
  pub maps : IsMap E
  pub keyed : (k : ℕ) (e : Entry V) → find k E ≡ some e → e.key ≡ k
  pub ordered : IsHeap H
  pub covered : (k : ℕ) (e : Entry V) → find k E ≡ some e → e.window ≢ 0 → 0 < count (filing e) H
  pub agrees :
      (f : Filing) (e : Entry V)
      → 0 < count f H
      → find f.key E ≡ some e
      → e.id ≡ f.id
      → (f.filed ≡ e.filed) × (e.window ≢ 0)
  pub single : (f : Filing) → count f H ≤ 1
  pub old_record : (f : Filing) → 0 < count f H → f.id < n
  pub old_entry : (k : ℕ) (e : Entry V) → find k E ≡ some e → e.id < n
  pub early : (k : ℕ) (e : Entry V) → find k E ≡ some e → e.window ≢ 0 → e.filed ≤ e.deadline

module _ {V : Type 0} (E : List (ℕ × Entry V)) (H : List Filing) (n : ℕ) (w : IsFiled E H n) where
  -- `policy.entries.delete`
  pub drop-IsFiled : (key : ℕ) → IsFiled (drop key E) H n
  drop-IsFiled key =
      let at = λ (k : ℕ). find-drop key k E w.maps in
      record {
        maps = drop-IsMap key E w.maps;
        keyed = λ k e h. ground (arith, at k, w.keyed k e);
        ordered = w.ordered;
        covered = λ k e h t. ground (arith, at k, w.covered k e);
        agrees = λ f e c h i. ground (arith, at f.key, w.agrees f e);
        single = w.single;
        old_record = w.old_record;
        old_entry = λ k e h. ground (arith, at k, w.old_entry k e);
        early = λ k e h t. ground (arith, at k, w.early k e);
      }

-- What a write of the entry `e`, with the heap that it comes with, has to respect.
pub record IsWrite {V : Type 0} (H : List Filing) (n : ℕ) (e : Entry V) (H' : List Filing) (n' : ℕ)
    : Type 0 where
  pub ordered : IsHeap H'
  pub single : (f : Filing) → count f H' ≤ 1
  pub others : (f : Filing) → f.key ≢ e.key → count f H' ≡ count f H
  pub own :
      (f : Filing)
      → f.key ≡ e.key
      → 0 < count f H'
      → f.id ≡ e.id
      → (f.filed ≡ e.filed) × (e.window ≢ 0)
  pub held : e.window ≢ 0 → 0 < count (filing e) H'
  pub grown : n ≤ n'
  pub older : e.id < n'
  pub older_record : (f : Filing) → 0 < count f H' → f.id < n'
  pub early : e.window ≢ 0 → e.filed ≤ e.deadline

pub put-IsFiled :
    {V : Type 0} (E : List (ℕ × Entry V)) (H : List Filing) (n : ℕ) (e : Entry V) (H' : List Filing)
    (n' : ℕ)
    → IsFiled E H n
    → IsWrite H n e H' n'
    → IsFiled (put e.key e E) H' n'
put-IsFiled E H n e H' n' w write =
    let at = λ (k : ℕ). find-put e.key k e E in
    record {
      maps = put-IsMap e.key e E w.maps;
      keyed = λ k d h. ground (arith, at k, w.keyed k d);
      ordered = write.ordered;
      covered = λ k d h t. elim (Bool-cases (k == e.key)) [
        | inl here ↦
            let same : e ≡ d = some-injective _ _ (ground (arith, at k)) in
            subst (λ x. 0 < count (filing x) H') same (write.held (rw same t))
        | inr other ↦
            let there : find k E ≡ some d = ground (arith, at k) in
            ground (arith, w.keyed k d, w.covered k d there t, write.others (filing d))
      ];
      agrees = λ f d c h i. ground (arith, at f.key, w.agrees f d, write.own f, write.others f);
      single = write.single;
      old_record = write.older_record;
      old_entry = λ k d h. ground (arith, at k, w.old_entry k d, write.grown, write.older);
      early = λ k d h t. ground (arith, at k, w.early k d, write.early);
    }
