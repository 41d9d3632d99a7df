-- ===== src/Collection/Heap/Count.antt =====
-- How often a record is in index.ts's expiry heap, and what its calls do to that.
use lunibee.Base.{
  ◌⊎◌, Bool-cases, inl, inr, ℕ, suc, ◌+◌, ◌<◌, ◌≤◌, ◌≡◌, refl, Bool, true, List, [], ◌∷◌, ◌==◌,
  ◌&&◌, keep, if◌then◌else◌, length, arith,
}
use lunibee.Collection.Heap.{Filing, at, heap_push, heap_pop}
use lunibee.Collection.Heap.Arrays.{total}
use lunibee.Collection.Heap.Order.{key_at, IsHeap, root_least}
use lunibee.Collection.Heap.Up.{heap_push-total, heap_push-IsHeap}
use lunibee.Collection.Heap.Down.{heap_pop-total, heap_pop-IsHeap}

abbrev pub same_filing : Filing → Filing → Bool
same_filing f g = f.key == g.key && (f.id == g.id && f.filed == g.filed)

abbrev pub one_if_same : Filing → Filing → ℕ
one_if_same f g = if same_filing f g then 1 else 0

unfoldable pub count : Filing → List Filing → ℕ
count f h = total (one_if_same f) h

pub count-heap_push :
    (f : Filing) (h : List Filing) (e : Filing)
    → count f (heap_push h e) ≡ count f h + one_if_same f e
unfolding count
count-heap_push f h e = heap_push-total (one_if_same f) h e

pub count-heap_pop :
    (f x : Filing) (h : List Filing)
    → count f (heap_pop (x ∷ h)) + one_if_same f x ≡ count f (x ∷ h)
unfolding count
count-heap_pop f x h = heap_pop-total (one_if_same f) x h

pub count-nil : (f : Filing) → count f [] ≡ 0
unfolding count total
count-nil f = refl

pub count-cons : (f x : Filing) (h : List Filing) → count f (x ∷ h) ≡ one_if_same f x + count f h
unfolding count total
count-cons f x h = refl

total_one : (h : List Filing) → total (λ _. 1) h ≡ length h
unfolding total
total_one [] = refl
total_one (x ∷ h) = omega (arith, total_one h)

pub length-heap_push : (h : List Filing) (e : Filing) → length (heap_push h e) ≡ length h + 1
length-heap_push h e =
    omega (arith, total_one h, total_one (heap_push h e), heap_push-total (λ _. 1) h e)

pub length-heap_pop :
    (x : Filing) (h : List Filing) → length (heap_pop (x ∷ h)) + 1 ≡ length (x ∷ h)
length-heap_pop x h =
    omega (arith, total_one (x ∷ h), total_one (heap_pop (x ∷ h)), heap_pop-total (λ _. 1) x h)

bound_of_count :
    (b : ℕ) (f : Filing) (h : List Filing)
    → ((i : ℕ) → i < length h → b ≤ key_at h i)
    → 0 < count f h
    → b ≤ f.filed
unfolding at
bound_of_count b f [] low p = absurd (ground (arith, count-nil f))
bound_of_count b f (x ∷ h) low p =
    let tail = bound_of_count b f h (λ i q. low (suc i) (omega arith)) in
    ground (arith, low 0, tail, count-cons f x h)

-- No record is filed before the top of a heap.
pub top_first :
    (f x : Filing) (h : List Filing) → IsHeap (x ∷ h) → 0 < count f (x ∷ h) → x.filed ≤ f.filed
unfolding at
top_first f x h heap p = bound_of_count x.filed f (x ∷ h) (λ i q. root_least (x ∷ h) i heap q) p

pub count-keep :
    (p : Filing → Bool) (f : Filing) (h : List Filing)
    → ((x : Filing) → same_filing f x ≡ true → p x ≡ p f)
    → count f (keep p h) ≡ (if p f then count f h else 0)
count-keep p f [] alike = ground (arith, count-nil f)
count-keep p f (x ∷ h) alike =
    ground (arith, count-cons f x h, count-cons f x (keep p h), count-keep p f h alike, alike x)

-- What `#heapPop` does to how often `f` is in a heap: of an empty one nothing; else it takes the top
-- away, and `f` is filed no earlier or not in the heap.
abbrev pub Pops : Filing → List Filing → Type 0
Pops f [] = heap_pop [] ≡ []
Pops f (x ∷ h) =
    (count f (heap_pop (x ∷ h)) + one_if_same f x ≡ count f (x ∷ h))
    × ((count f (x ∷ h) ≡ 0) ⊎ (x.filed ≤ f.filed))

heap_pop-Pops : (f : Filing) (h : List Filing) → IsHeap h → Pops f h
unfolding heap_pop
heap_pop-Pops f [] heap = refl
heap_pop-Pops f (x ∷ h) heap = (
  count-heap_pop f x h,
  elim (Bool-cases (count f (x ∷ h) == 0)) [
    | inl absent ↦ inl (ground (arith, absent))
    | inr held ↦ inr (top_first f x h heap (ground (arith, held)))
  ],
)

-- `#heapPush` adds its record to any heap, an empty one too, and the result is a heap; of a heap
-- `#heapPop` takes one record away that no record is filed before, and leaves a heap of the others.
pub IsHeap-laws :
    (f e : Filing) (h : List Filing)
    → IsHeap h
    → IsHeap (heap_push h e)
      × (count f (heap_push h e) ≡ count f h + one_if_same f e)
      × IsHeap (heap_pop h)
      × Pops f h
IsHeap-laws f e h heap = (
  heap_push-IsHeap h e heap,
  count-heap_push f h e,
  heap_pop-IsHeap h heap,
  heap_pop-Pops f h heap,
)
