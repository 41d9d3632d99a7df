-- ===== src/Collection/Heap/Up.antt =====
-- `#heapPush` of index.ts: the order of the heap and its records.
use lunibee.Base.{
  ℕ, zero, suc, ◌+◌, ◌<◌, ◌≤◌, ◌≡◌, ◌≢◌, List, [], ◌∷◌, ◌++◌, leb, ltb, length, length-append,
  Bool-cases, inl, inr, arith,
}
use lunibee.Collection.Heap.{Filing, at, write, parent, rise, heap_push}
use lunibee.Collection.Heap.Arrays.{
  length-write, at-write, at-append, at-append_last, total, total-append, total-write,
}
use lunibee.Collection.Heap.Order.{key_at, IsHeap}

-- Slot `i` is free: the edges away from it are in order, and so are those that cross it. A record
-- filed at `v` is no later than the records below the slot.
record UpInv (h : List Filing) (i v : ℕ) : Type 0 where
  inside : i < length h
  edges : (c : ℕ) → 0 < c → c < length h → c ≢ i → parent c ≢ i → key_at h (parent c) ≤ key_at h c
  below : (c : ℕ) → 0 < c → c < length h → parent c ≡ i → v ≤ key_at h c
  bridged : (c : ℕ) → 0 < c → c < length h → parent c ≡ i → 0 < i → key_at h (parent i) ≤ key_at h c

write-UpInv :
    (h : List Filing) (i v : ℕ)
    → UpInv h i v
    → 0 < i
    → v < key_at h (parent i)
    → UpInv (write h i (at h (parent i))) (parent i) v
write-UpInv h i v inv pos late =
    let put = λ (j : ℕ). at-write h i j (at h (parent i)) inv.inside in
    let same = length-write h i (at h (parent i)) in
    record {
      inside = ground (arith, same, inv.inside);
      edges = λ c p q r s. ground (arith, put c, put (parent c), same, inv.edges c, inv.bridged c);
      below = λ c p q r. ground (arith, put c, same, inv.edges c, inv.below c);
      bridged = λ c p q r s.
          ground (arith, put c, put (parent (parent i)), same, inv.edges c, inv.edges (parent i));
    }

placed :
    (h : List Filing) (i : ℕ) (e : Filing)
    → UpInv h i e.filed
    → (0 < i → key_at h (parent i) ≤ e.filed)
    → IsHeap (write h i e)
placed h i e inv settled c p q =
    let put = λ (j : ℕ). at-write h i j e inv.inside in
    ground (arith, put c, put (parent c), length-write h i e, inv.edges c, inv.below c, settled)

rise-IsHeap :
    (fuel : ℕ) (h : List Filing) (i : ℕ) (e : Filing)
    → i ≤ fuel
    → UpInv h i e.filed
    → IsHeap (rise fuel h i e)
unfolding rise
rise-IsHeap zero h i e f inv = placed h i e inv (λ p. absurd (omega arith))
rise-IsHeap (suc fuel) h i e f inv = elim (Bool-cases (ltb 0 i)) [
  | inr root ↦ rw root (placed h i e inv (λ p. absurd (ground arith)))
  | inl pos ↦ elim (Bool-cases (leb ((at h (parent i)).filed) e.filed)) [
    | inl settled ↦ rw (pos, settled) (placed h i e inv (λ p. ground arith))
    | inr late ↦
        rw (pos, late)
          (rise-IsHeap fuel (write h i (at h (parent i))) (parent i) e (ground arith)
            (write-UpInv h i e.filed inv (ground arith) (ground arith)))
  ]
]

rise-total :
    (w : Filing → ℕ) (fuel : ℕ) (h : List Filing) (i : ℕ) (e : Filing)
    → i < length h
    → total w (rise fuel h i e) + w (at h i) ≡ total w h + w e
unfolding rise
rise-total w zero h i e p = total-write w h i e p
rise-total w (suc fuel) h i e p =
    let above = at h (parent i) in
    let higher = write h i above in
    let later = rise-total w fuel higher (parent i) e (ground (arith, length-write h i above)) in
    ground (
      arith,
      total-write w h i e p,
      total-write w h i above p,
      later,
      at-write h i (parent i) above p,
    )

pub heap_push-total :
    (w : Filing → ℕ) (h : List Filing) (e : Filing) → total w (heap_push h e) ≡ total w h + w e
unfolding heap_push total
heap_push-total w h e =
    let grown =
      rise-total w (length h) (h ++ e ∷ []) (length h) e
        (omega (arith, length-append h (e ∷ []))) in
    let added = total-append w h (e ∷ []) in ground (arith, grown, added, at-append_last h e)

pub heap_push-IsHeap : (h : List Filing) (e : Filing) → IsHeap h → IsHeap (heap_push h e)
unfolding heap_push
heap_push-IsHeap h e heap =
    let grown = length-append h (e ∷ []) in
    let before = λ (j : ℕ) (p : j < length h). at-append h j e p in
    rise-IsHeap (length h) (h ++ e ∷ []) (length h) e (omega arith) (record {
      inside = omega (arith, grown);
      edges = λ c p q r s. ground (arith, before c, before (parent c), grown, heap c);
      below = λ c p q r. absurd (ground (arith, grown));
      bridged = λ c p q r s. absurd (ground (arith, grown));
    })
