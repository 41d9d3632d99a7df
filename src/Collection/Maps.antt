-- ===== src/Collection/Maps.antt =====
-- The `Map` that packages/collection/src/index.ts builds on, in insertion order. A key is the number
-- of a value up to SameValueZero, the equality of the keys of a `Map`.
pub mod Laws
use lunibee.Base.{ℕ, Option, none, some, List, [], ◌∷◌, ◌==◌, if◌then◌else◌, Bool, is_some, map}

module _ {ℓ} {A : Type ℓ} where
  -- `Map.prototype.get`
  abbrev pub find : ℕ → List (ℕ × A) → Option A
  find key [] = none
  find key ((k, a) ∷ xs) = if k == key then some a else find key xs

  abbrev pub has_key : ℕ → List (ℕ × A) → Bool
  has_key key xs = is_some (find key xs)

  -- `Map.prototype.set`: a key that is there keeps its place.
  abbrev pub put : ℕ → A → List (ℕ × A) → List (ℕ × A)
  put key a [] = (key, a) ∷ []
  put key a ((k, b) ∷ xs) =
      let later = put key a xs in if k == key then (k, a) ∷ xs else (k, b) ∷ later

  -- `Map.prototype.delete`
  abbrev pub drop : ℕ → List (ℕ × A) → List (ℕ × A)
  drop key [] = []
  drop key ((k, b) ∷ xs) = let later = drop key xs in if k == key then xs else (k, b) ∷ later

  abbrev pub keys_of : List (ℕ × A) → List ℕ
  keys_of xs = map (λ x. x.0) xs
