-- ===== src/Collection/Heap/Order.antt =====
-- The order of index.ts's expiry heap: every record is filed no earlier than its parent.
use lunibee.Base.{ℕ, zero, suc, ◌<◌, ◌≤◌, List, length, arith}
use lunibee.Collection.Heap.{Filing, at, parent}

abbrev pub key_at : List Filing → ℕ → ℕ
key_at h i = (at h i).filed

abbrev pub IsHeap : List Filing → Type 0
IsHeap h = (c : ℕ) → 0 < c → c < length h → key_at h (parent c) ≤ key_at h c

root_least_below :
    (k : ℕ) (h : List Filing) (i : ℕ) → IsHeap h → i < k → i < length h → key_at h 0 ≤ key_at h i
root_least_below zero h i heap f p = absurd (omega arith)
root_least_below (suc k) h i heap f p = ground (arith, heap i, root_least_below k h (parent i) heap)

-- The top of a heap is filed first.
pub root_least : (h : List Filing) (i : ℕ) → IsHeap h → i < length h → key_at h 0 ≤ key_at h i
root_least h i heap p = root_least_below (suc i) h i heap (omega arith) p
