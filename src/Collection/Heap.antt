-- ===== src/Collection/Heap.antt =====
-- packages/collection/src/index.ts: `#heapPush` and `#heapPop`, the expiry heap of a `Collection`.
-- The heap holds what it orders a record by, `filed`, beside the record's identity and its key: the
-- code writes `filed` only to a record that is out of the heap. A read that the code asserts to be
-- in range gives `no_filing` outside it.
pub mod Arrays
pub mod Order
pub mod Up
pub mod Down
pub mod Count
use lunibee.Base.{
  ℕ, zero, suc, ◌+◌, ◌-◌, ◌*◌, ◌/◌, Bool, true, false, ◌&&◌, Option, none, some, List, [], ◌∷◌,
  ◌++◌, ltb, leb, if◌then◌else◌, length,
}

pub record Filing : Type 0 where
  pub key : ℕ
  pub id : ℕ
  pub filed : ℕ

abbrev pub no_filing : Filing
no_filing = record { key = 0; id = 0; filed = 0 }

-- `heap[i]`
unfoldable pub at : List Filing → ℕ → Filing
at [] i = no_filing
at (x ∷ h) zero = x
at (x ∷ h) (suc i) = at h i

-- `heap[i] = v`
unfoldable pub write : List Filing → ℕ → Filing → List Filing
write [] i v = []
write (x ∷ h) zero v = v ∷ h
write (x ∷ h) (suc i) v = x ∷ write h i v

-- `heap.pop()` on a heap that has an element, without the result.
unfoldable pub drop_last : List Filing → List Filing
drop_last [] = []
drop_last (x ∷ []) = []
drop_last (x ∷ y ∷ h) = x ∷ drop_last (y ∷ h)

abbrev pub parent : ℕ → ℕ
parent i = (i - 1) / 2

-- The loop of `#heapPush`, with the write after it.
unfoldable pub rise : ℕ → List Filing → ℕ → Filing → List Filing
rise zero h i entry = write h i entry
rise (suc fuel) h i entry =
    let above = at h (parent i) in
    let higher = rise fuel (write h i above) (parent i) entry in
    if ltb 0 i
    then (if leb above.filed entry.filed then write h i entry else higher)
    else write h i entry

unfoldable pub heap_push : List Filing → Filing → List Filing
heap_push h entry = rise (length h) (h ++ entry ∷ []) (length h) entry

-- The child that the loop of `#heapPop` compares.
unfoldable pub smaller_child : List Filing → ℕ → ℕ
smaller_child h i =
    let child = 2 * i + 1 in
    if ltb (child + 1) (length h) && ltb ((at h (child + 1)).filed) ((at h child).filed)
    then child + 1
    else child

-- The loop of `#heapPop`, with the write after it.
unfoldable pub sink : ℕ → List Filing → ℕ → Filing → List Filing
sink zero h i last = write h i last
sink (suc fuel) h i last =
    let child = smaller_child h i in
    let lower = sink fuel (write h i (at h child)) child last in
    if leb (length h) (2 * i + 1)
    then write h i last
    else (if leb last.filed ((at h child).filed) then write h i last else lower)

-- The heap without its top; the callers read the top before.
unfoldable pub heap_pop : List Filing → List Filing
heap_pop [] = []
heap_pop (x ∷ []) = []
heap_pop (x ∷ y ∷ h) =
    let rest = drop_last (x ∷ y ∷ h) in sink (length rest) rest 0 (at (x ∷ y ∷ h) (length (y ∷ h)))
