-- ===== src/Collection/Derived/Algebra.antt =====
-- How the set operations of packages/collection/src/index.ts read.
use lunibee.Base.{
  ℕ, ◌≡◌, refl, ap, ◌∙◌, sym, Bool, true, false, not, Option, none, some, List, [], ◌∷◌, ◌==◌, keep,
  is_some, if◌then◌else◌, Bool-cases, by_if, inl, inr, arith,
}
use lunibee.Collection.Maps.{find, put, has_key}
use lunibee.Collection.Maps.Laws.{IsMap, find-put, eq_of_==}
use lunibee.Collection.Store.{first_of}
use lunibee.Collection.Derived.{
  set_entries, clone, union, intersection, difference, symmetric_difference,
}

module _ {V : Type 0} where
  pub find_absent : (k : ℕ) (xs : List (ℕ × V)) → has_key k xs ≡ false → find k xs ≡ none
  find_absent k [] absent = refl
  find_absent k ((j, v) ∷ xs) absent = ground (arith, find_absent k xs)

  -- An entry that is set later wins; in a map there is one.
  find-set_entries :
      (k : ℕ) (result xs : List (ℕ × V))
      → IsMap xs
      → find k (set_entries result xs) ≡ first_of (find k xs) (find k result)
  unfolding set_entries
  find-set_entries k result [] maps = refl
  find-set_entries k result ((j, v) ∷ xs) (fresh, maps) =
      let later = find-set_entries k (put j v result) xs maps in
      elim (Bool-cases (j == k)) [
        | inl here ↦
            let same = eq_of_== j k here in
            let gone : find k xs ≡ none = find_absent k xs (rw⁻¹ same fresh) in
            let again : (k == j) ≡ true = ground arith in
            rw here (later ∙ rw (gone, find-put j k v result, again) refl)
        | inr other ↦
            let apart : (k == j) ≡ false = ground arith in
            rw other (later ∙ rw (find-put j k v result, apart) refl)
      ]

  -- A test of the key alone.
  find-keep :
      (p : ℕ → Bool) (k : ℕ) (xs : List (ℕ × V))
      → find k (keep (λ x. p x.0) xs) ≡ (if p k then find k xs else none)
  find-keep p k [] = by_if (λ o. none ≡ o) (p k) (λ _. refl) (λ _. refl)
  find-keep p k ((j, v) ∷ xs) = elim (Bool-cases (j == k)) [
    | inl here ↦
        let same = ap p (eq_of_== j k here) in
        elim (Bool-cases (p j)) [
          | inl held ↦ rw (held, sym same ∙ held, here) refl
          | inr failed ↦
              rw (failed, sym same ∙ failed) (find-keep p k xs ∙ rw (sym same ∙ failed) refl)
        ]
    | inr other ↦ elim (Bool-cases (p j)) [
      | inl held ↦ rw (held, other) (find-keep p k xs)
      | inr failed ↦ rw (failed, other) (find-keep p k xs)
    ]
  ]

  keep-IsMap : (p : ℕ → Bool) (xs : List (ℕ × V)) → IsMap xs → IsMap (keep (λ x. p x.0) xs)
  keep-IsMap p [] maps = tt
  keep-IsMap p ((j, v) ∷ xs) (fresh, maps) =
      by_if IsMap (p j)
        (λ held. (ap is_some (find-keep p j xs) ∙ rw held fresh, keep-IsMap p xs maps))
        (λ failed. keep-IsMap p xs maps)

  -- A new collection of the entries with such a key.
  find-kept :
      (p : ℕ → Bool) (k : ℕ) (result xs : List (ℕ × V))
      → IsMap xs
      → find k (set_entries result (keep (λ x. p x.0) xs))
        ≡ first_of (if p k then find k xs else none) (find k result)
  find-kept p k result xs maps =
      find-set_entries k result (keep (λ x. p x.0) xs) (keep-IsMap p xs maps)
      ∙ ap (λ o. first_of o (find k result)) (find-keep p k xs)

first_of-none : {V : Type 0} (o : Option V) → first_of o none ≡ o
first_of-none none = refl
first_of-none (some v) = refl

left_of :
    {V : Type 0} (a b : Option V)
    → first_of (if not (is_some b) then a else none) none ≡ (if is_some b then none else a)
left_of a none = first_of-none a
left_of a (some v) = refl

one_of :
    {V : Type 0} (a b : Option V)
    → first_of (if not (is_some a) then b else none) (if is_some b then none else a)
      ≡ (if is_some b then (if is_some a then none else b) else a)
one_of none none = refl
one_of none (some v) = refl
one_of (some u) none = refl
one_of (some u) (some v) = refl

module _ {V : Type 0} (self other : List (ℕ × V)) (here : IsMap self) (there : IsMap other)
    (k : ℕ) where
  -- Of two collections, at every key: `union` has the value of the other collection where that has
  -- the key, and else the one of this; `intersection` and `difference` have the value of this where
  -- the other has the key, and where it has not; `symmetricDifference` has the value of the only one
  -- that has the key.
  pub set_algebra :
      (find k (union self other) ≡ first_of (find k other) (find k self))
      × (find k (intersection self other) ≡ (if has_key k other then find k self else none))
      × (find k (difference self other) ≡ (if has_key k other then none else find k self))
      × (find k (symmetric_difference self other) ≡ (
          if has_key k other then (if has_key k self then none else find k other) else find k self))
  unfolding union clone intersection difference symmetric_difference
  set_algebra = (
    find-set_entries k (set_entries [] self) other there
        ∙ ap (first_of (find k other))
            (find-set_entries k [] self here ∙ first_of-none (find k self)),
    find-kept (λ j. has_key j other) k [] self here ∙ first_of-none _,
    find-kept (λ j. not (has_key j other)) k [] self here ∙ left_of (find k self) (find k other),
    find-kept (λ j. not (has_key j self)) k
          (set_entries [] (keep (λ x. not (has_key x.0 other)) self)) other there
        ∙ (ap (first_of (if not (has_key k self) then find k other else none)) (
              find-kept (λ j. not (has_key j other)) k [] self here
              ∙ left_of (find k self) (find k other))
            ∙ one_of (find k self) (find k other)),
  )
