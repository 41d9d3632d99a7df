-- ===== src/Collection/Maps/Laws.antt =====
-- How a `Map` reads after it was written.
use lunibee.Base.{
  ==_self, ap, ℕ, ◌≡◌, ◌≢◌, refl, none, some, List, [], ◌∷◌, ◌==◌, if◌then◌else◌, arith, true,
  false, Bool-cases, inl, inr,
}
use lunibee.Collection.Maps.{find, put, drop, has_key}

pub eq_of_== : (a b : ℕ) → (a == b) ≡ true → a ≡ b
eq_of_== a b h = ground arith

module _ {ℓ} {A : Type ℓ} where
  -- Every key of a map is there once.
  abbrev pub IsMap : List (ℕ × A) → Type 0
  IsMap [] = Unit
  IsMap ((k, _) ∷ xs) = (has_key k xs ≡ false) × IsMap xs

  find-none : (key : ℕ) (xs : List (ℕ × A)) → has_key key xs ≡ false → find key xs ≡ none
  find-none key [] h = refl
  find-none key ((j, b) ∷ xs) h = ground (arith, find-none key xs)

  pub find-put :
      (key k : ℕ) (a : A) (xs : List (ℕ × A))
      → find k (put key a xs) ≡ (if k == key then some a else find k xs)
  find-put key k a [] = ground arith
  find-put key k a ((j, b) ∷ xs) = ground (arith, find-put key k a xs)

  pub find-drop_ne : (key k : ℕ) (xs : List (ℕ × A)) → k ≢ key → find k (drop key xs) ≡ find k xs
  find-drop_ne key k [] h = refl
  find-drop_ne key k ((j, b) ∷ xs) h = ground (arith, find-drop_ne key k xs)

  pub find-drop_self : (key : ℕ) (xs : List (ℕ × A)) → IsMap xs → find key (drop key xs) ≡ none
  find-drop_self key [] h = refl
  find-drop_self key ((j, b) ∷ xs) (fresh, h) = elim (Bool-cases (j == key)) [
    | inl same ↦ rw same (find-none key xs (ground arith))
    | inr other ↦ rw (other, other) (find-drop_self key xs h)
  ]

  pub find-drop :
      (key k : ℕ) (xs : List (ℕ × A))
      → IsMap xs
      → find k (drop key xs) ≡ (if k == key then none else find k xs)
  find-drop key k xs h = elim (Bool-cases (k == key)) [
    | inl same ↦ rw (same, eq_of_== k key same) (find-drop_self key xs h)
    | inr other ↦ rw other (find-drop_ne key k xs (λ e. absurd (ground arith)))
  ]

  pub put-IsMap : (key : ℕ) (a : A) (xs : List (ℕ × A)) → IsMap xs → IsMap (put key a xs)
  put-IsMap key a [] h = (refl, tt)
  put-IsMap key a ((j, b) ∷ xs) (fresh, h) =
      ground (arith, find-put key j a xs, put-IsMap key a xs h)

  pub drop-IsMap : (key : ℕ) (xs : List (ℕ × A)) → IsMap xs → IsMap (drop key xs)
  drop-IsMap key [] h = tt
  drop-IsMap key ((j, b) ∷ xs) (fresh, h) =
      ground (arith, find-drop_ne key j xs, drop-IsMap key xs h)

  pub put-put : (key : ℕ) (a b : A) (xs : List (ℕ × A)) → put key b (put key a xs) ≡ put key b xs
  put-put key a b [] = rw (==_self key) refl
  put-put key a b ((j, c) ∷ xs) = elim (Bool-cases (j == key)) [
    | inl same ↦ rw (same, same) refl
    | inr other ↦ rw (other, other) (ap ((j, c) ∷◌) (put-put key a b xs))
  ]
