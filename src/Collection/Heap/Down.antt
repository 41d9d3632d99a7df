-- ===== src/Collection/Heap/Down.antt =====
-- `#heapPop` of index.ts: the order of the heap and its records.
use lunibee.Base.{
  ap, ℕ, zero, suc, ◌+◌, ◌*◌, ◌<◌, ◌≤◌, ◌≡◌, ◌≢◌, ◌⊎◌, List, [], ◌∷◌, leb, length, Bool-cases, inl,
  inr, arith,
}
use lunibee.Collection.Heap.{Filing, at, write, parent, drop_last, smaller_child, sink, heap_pop}
use lunibee.Collection.Heap.Arrays.{
  length-write, at-write, length-drop_last, at-drop_last, total, total-write, total-drop_last,
}
use lunibee.Collection.Heap.Order.{key_at, IsHeap}

-- `m` is the child of `i` that is filed first.
record IsFirstChild (h : List Filing) (i m : ℕ) : Type 0 where
  inside : m < length h
  child : (m ≡ 2 * i + 1) ⊎ (m ≡ 2 * i + 2)
  least : (c : ℕ) → 0 < c → c < length h → parent c ≡ i → key_at h m ≤ key_at h c

smaller_child-IsFirstChild :
    (h : List Filing) (i : ℕ) → 2 * i + 1 < length h → IsFirstChild h i (smaller_child h i)
unfolding smaller_child
smaller_child-IsFirstChild h i p = grind arith

-- Slot `i` is free: the edges away from it are in order, and so are those that cross it. A record
-- filed at `v` is no earlier than the record above the slot.
record DownInv (h : List Filing) (i v : ℕ) : Type 0 where
  inside : i < length h
  edges : (c : ℕ) → 0 < c → c < length h → c ≢ i → parent c ≢ i → key_at h (parent c) ≤ key_at h c
  above : 0 < i → key_at h (parent i) ≤ v
  bridged : (c : ℕ) → 0 < c → c < length h → parent c ≡ i → 0 < i → key_at h (parent i) ≤ key_at h c

write-DownInv :
    (h : List Filing) (i m v : ℕ)
    → DownInv h i v
    → IsFirstChild h i m
    → key_at h m < v
    → DownInv (write h i (at h m)) m v
write-DownInv h i m v inv first early =
    let put = λ (j : ℕ). at-write h i j (at h m) inv.inside in
    let same = length-write h i (at h m) in
    let up : parent m ≡ i = ground (arith, first.child) in
    record {
      inside = omega (arith, same, first.inside);
      edges = λ c p q r s.
          ground (arith, put c, put (parent c), same, inv.edges c, inv.bridged m, first.least c);
      above = λ p. ground (arith, put (parent m), up);
      bridged = λ c p q r s. ground (arith, put c, put (parent m), up, same, inv.edges c);
    }

placed :
    (h : List Filing) (i : ℕ) (e : Filing)
    → DownInv h i e.filed
    → ((c : ℕ) → 0 < c → c < length h → parent c ≡ i → e.filed ≤ key_at h c)
    → IsHeap (write h i e)
placed h i e inv settled c p q =
    let put = λ (j : ℕ). at-write h i j e inv.inside in
    ground (arith, put c, put (parent c), length-write h i e, inv.edges c, inv.above, settled c)

sink-IsHeap :
    (fuel : ℕ) (h : List Filing) (i : ℕ) (e : Filing)
    → length h ≤ fuel + i
    → DownInv h i e.filed
    → IsHeap (sink fuel h i e)
unfolding sink
sink-IsHeap zero h i e f inv = absurd (omega (arith, inv.inside))
sink-IsHeap (suc fuel) h i e f inv = elim (Bool-cases (leb (length h) (2 * i + 1))) [
  | inl leaf ↦ rw leaf (placed h i e inv (λ c p q r. absurd (ground arith)))
  | inr inner ↦
      let first = smaller_child-IsFirstChild h i (ground arith) in
      let child = smaller_child h i in
      elim (Bool-cases (leb e.filed ((at h child).filed))) [
        | inl settled ↦
            rw (inner, settled) (placed h i e inv (λ c p q r. ground (arith, first.least c)))
        | inr early ↦
            rw (inner, early)
              (sink-IsHeap fuel (write h i (at h child)) child e
                (ground (arith, length-write h i (at h child), first.child))
                (write-DownInv h i child e.filed inv first (ground arith)))
      ]
]

sink-total :
    (w : Filing → ℕ) (fuel : ℕ) (h : List Filing) (i : ℕ) (e : Filing)
    → i < length h
    → total w (sink fuel h i e) + w (at h i) ≡ total w h + w e
unfolding sink
sink-total w zero h i e p = total-write w h i e p
sink-total w (suc fuel) h i e p = elim (Bool-cases (leb (length h) (2 * i + 1))) [
  | inl leaf ↦ rw leaf (total-write w h i e p)
  | inr inner ↦
      let first = smaller_child-IsFirstChild h i (ground arith) in
      let child = smaller_child h i in
      let later =
        sink-total w fuel (write h i (at h child)) child e
          (omega (arith, length-write h i (at h child), first.inside)) in
      rw inner (
        ground (
          arith,
          total-write w h i e p,
          total-write w h i (at h child) p,
          later,
          first.child,
          at-write h i child (at h child) p,
        ))
]

pub heap_pop-total :
    (w : Filing → ℕ) (x : Filing) (h : List Filing)
    → total w (heap_pop (x ∷ h)) + w x ≡ total w (x ∷ h)
unfolding heap_pop total sink drop_last write at
heap_pop-total w x [] = omega arith
heap_pop-total w x (y ∷ h) =
    let last = at (x ∷ y ∷ h) (length (y ∷ h)) in
    let rest = drop_last (x ∷ y ∷ h) in
    let moved =
      sink-total w (length rest) rest 0 last (omega (arith, length-drop_last x (y ∷ h))) in
    omega
      (arith, moved, total-drop_last w x (y ∷ h), ap w (at-drop_last (x ∷ y ∷ h) 0 (omega arith)))

pub heap_pop-IsHeap : (h : List Filing) → IsHeap h → IsHeap (heap_pop h)
unfolding heap_pop
heap_pop-IsHeap [] heap = heap
heap_pop-IsHeap (x ∷ []) heap = λ c p q. absurd (omega arith)
heap_pop-IsHeap (x ∷ y ∷ h) heap =
    let kept = at-drop_last (x ∷ y ∷ h) in
    let shorter = length-drop_last x (y ∷ h) in
    let last = at (x ∷ y ∷ h) (length (y ∷ h)) in
    sink-IsHeap (length (drop_last (x ∷ y ∷ h))) (drop_last (x ∷ y ∷ h)) 0 last (omega arith)
      (record {
        inside = omega (arith, shorter);
        edges = λ c p q r s. ground (arith, shorter, kept c, kept (parent c), heap c);
        above = λ p. absurd (omega arith);
        bridged = λ c p q r s. absurd (omega arith);
      })
