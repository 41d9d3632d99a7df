-- ===== src/Collection/Heap/Arrays.antt =====
-- The reads, the writes and the weight of an array of index.ts's expiry heap.
use lunibee.Base.{
  ℕ, zero, suc, ◌+◌, ◌<◌, ◌≡◌, refl, ap, List, [], ◌∷◌, ◌++◌, ◌==◌, if◌then◌else◌, length, arith,
}
use lunibee.Collection.Heap.{Filing, at, write, drop_last}

pub length-write : (h : List Filing) (i : ℕ) (v : Filing) → length (write h i v) ≡ length h
unfolding write
length-write [] i v = refl
length-write (x ∷ h) zero v = refl
length-write (x ∷ h) (suc i) v = ap suc (length-write h i v)

pub at-write :
    (h : List Filing) (i j : ℕ) (v : Filing)
    → i < length h
    → at (write h i v) j ≡ (if j == i then v else at h j)
unfolding write at
at-write [] i j v p = absurd (omega arith)
at-write (x ∷ h) zero zero v p = refl
at-write (x ∷ h) zero (suc j) v p = ground arith
at-write (x ∷ h) (suc i) zero v p = ground arith
at-write (x ∷ h) (suc i) (suc j) v p = ground (arith, at-write h i j v (omega arith))

pub at-append : (h : List Filing) (j : ℕ) (v : Filing) → j < length h → at (h ++ v ∷ []) j ≡ at h j
unfolding at
at-append [] j v p = absurd (omega arith)
at-append (x ∷ h) zero v p = refl
at-append (x ∷ h) (suc j) v p = at-append h j v (omega arith)

pub at-append_last : (h : List Filing) (v : Filing) → at (h ++ v ∷ []) (length h) ≡ v
unfolding at
at-append_last [] v = refl
at-append_last (x ∷ h) v = at-append_last h v

pub length-drop_last : (x : Filing) (h : List Filing) → length (drop_last (x ∷ h)) ≡ length h
unfolding drop_last
length-drop_last x [] = refl
length-drop_last x (y ∷ h) = ap suc (length-drop_last y h)

pub at-drop_last : (h : List Filing) (j : ℕ) → suc j < length h → at (drop_last h) j ≡ at h j
unfolding drop_last at
at-drop_last [] j p = absurd (omega arith)
at-drop_last (x ∷ []) j p = absurd (omega arith)
at-drop_last (x ∷ y ∷ h) zero p = refl
at-drop_last (x ∷ y ∷ h) (suc j) p = at-drop_last (y ∷ h) j (omega arith)

-- The sum of a weight over the elements; a list is known by it up to the order.
unfoldable pub total : (Filing → ℕ) → List Filing → ℕ
total w [] = 0
total w (x ∷ h) = w x + total w h

pub total-append : (w : Filing → ℕ) (h g : List Filing) → total w (h ++ g) ≡ total w h + total w g
unfolding total
total-append w [] g = omega arith
total-append w (x ∷ h) g = omega (arith, total-append w h g)

pub total-write :
    (w : Filing → ℕ) (h : List Filing) (i : ℕ) (v : Filing)
    → i < length h
    → total w (write h i v) + w (at h i) ≡ total w h + w v
unfolding total write at
total-write w [] i v p = absurd (omega arith)
total-write w (x ∷ h) zero v p = omega arith
total-write w (x ∷ h) (suc i) v p = omega (arith, total-write w h i v (omega arith))

pub total-drop_last :
    (w : Filing → ℕ) (x : Filing) (h : List Filing)
    → total w (drop_last (x ∷ h)) + w (at (x ∷ h) (length h)) ≡ total w (x ∷ h)
unfolding total drop_last at
total-drop_last w x [] = omega arith
total-drop_last w x (y ∷ h) = omega (arith, total-drop_last w y h)
