-- ===== src/Structures/Permissions/Bits.antt =====
-- Non-negative bigints as bit fields, lowest bit first, for packages/structures/src/permissions.ts.
-- Two lists that differ in zeros at the end stand for the same number.
use lunibee.Base.{
  ℕ, zero, suc, ◌≡◌, ◌↔◌, refl, Bool, true, false, not, ◌&&◌, ◌||◌, List, [], ◌∷◌, ◌==◌,
  if◌then◌else◌, arith, false≢true, sym,
}

abbrev pub Bits : Type 0
Bits = List Bool

-- `1n << BigInt(i)`
unfoldable pub bit : ℕ → Bits
bit zero = true ∷ []
bit (suc i) = false ∷ bit i

-- `a | b`
unfoldable pub or_bits : Bits → Bits → Bits
or_bits [] b = b
or_bits (x ∷ a) [] = x ∷ a
or_bits (x ∷ a) (y ∷ b) = (x || y) ∷ or_bits a b

-- `a & b`
unfoldable pub and_bits : Bits → Bits → Bits
and_bits [] b = []
and_bits (x ∷ a) [] = []
and_bits (x ∷ a) (y ∷ b) = (x && y) ∷ and_bits a b

-- `a & ~b`
unfoldable pub minus_bits : Bits → Bits → Bits
minus_bits [] b = []
minus_bits (x ∷ a) [] = x ∷ a
minus_bits (x ∷ a) (y ∷ b) = (x && not y) ∷ minus_bits a b

-- `a === 0n`
unfoldable pub is_zero : Bits → Bool
is_zero [] = true
is_zero (x ∷ a) = if x then false else is_zero a

abbrev eq_bool : Bool → Bool → Bool
eq_bool true b = b
eq_bool false b = not b

-- `a === b`
unfoldable pub eq_bits : Bits → Bits → Bool
eq_bits [] b = is_zero b
eq_bits (x ∷ a) [] = is_zero (x ∷ a)
eq_bits (x ∷ a) (y ∷ b) = if eq_bool x y then eq_bits a b else false

-- Bit `i` of a bit field.
unfoldable pub test : ℕ → Bits → Bool
test i [] = false
test zero (x ∷ a) = x
test (suc i) (x ∷ a) = test i a

pub test-or_bits : (i : ℕ) (a b : Bits) → test i (or_bits a b) ≡ (test i a || test i b)
unfolding test or_bits
test-or_bits i [] b = refl
test-or_bits zero (x ∷ a) [] = ground arith
test-or_bits (suc i) (x ∷ a) [] = ground arith
test-or_bits zero (x ∷ a) (y ∷ b) = refl
test-or_bits (suc i) (x ∷ a) (y ∷ b) = test-or_bits i a b

pub test-and_bits : (i : ℕ) (a b : Bits) → test i (and_bits a b) ≡ (test i a && test i b)
unfolding test and_bits
test-and_bits i [] b = refl
test-and_bits zero (x ∷ a) [] = ground arith
test-and_bits (suc i) (x ∷ a) [] = ground arith
test-and_bits zero (x ∷ a) (y ∷ b) = refl
test-and_bits (suc i) (x ∷ a) (y ∷ b) = test-and_bits i a b

pub test-minus_bits : (i : ℕ) (a b : Bits) → test i (minus_bits a b) ≡ (test i a && not (test i b))
unfolding test minus_bits
test-minus_bits i [] b = refl
test-minus_bits zero (x ∷ a) [] = ground arith
test-minus_bits (suc i) (x ∷ a) [] = ground arith
test-minus_bits zero (x ∷ a) (y ∷ b) = refl
test-minus_bits (suc i) (x ∷ a) (y ∷ b) = test-minus_bits i a b

pub is_zero-test : (a : Bits) → is_zero a ≡ true → (i : ℕ) → test i a ≡ false
unfolding is_zero test
is_zero-test [] h i = refl
is_zero-test (x ∷ a) h zero = ground arith
is_zero-test (x ∷ a) h (suc i) = is_zero-test a (ground arith) i

pub is_zero-of_test : (a : Bits) → ((i : ℕ) → test i a ≡ false) → is_zero a ≡ true
unfolding is_zero test
is_zero-of_test [] h = refl
is_zero-of_test (x ∷ a) h = rw (h 0) (is_zero-of_test a (λ i. h (suc i)))

-- A bit field that is not zero has a bit.
pub some_bit : (a : Bits) → is_zero a ≡ false → (i : ℕ) × (test i a ≡ true)
unfolding is_zero test
some_bit [] h = absurd (false≢true (sym h))
some_bit (true ∷ a) h = (0, refl)
some_bit (false ∷ a) h = let (i, t) = some_bit a h in (suc i, t)

pub eq_bits-test : (a b : Bits) → eq_bits a b ≡ true → (i : ℕ) → test i a ≡ test i b
unfolding eq_bits test
eq_bits-test [] b h i = ground (arith, is_zero-test b h i)
eq_bits-test (x ∷ a) [] h i = is_zero-test (x ∷ a) h i
eq_bits-test (x ∷ a) (y ∷ b) h zero = ground arith
eq_bits-test (x ∷ a) (y ∷ b) h (suc i) = eq_bits-test a b (ground arith) i

pub eq_bits-of_test : (a b : Bits) → ((i : ℕ) → test i a ≡ test i b) → eq_bits a b ≡ true
unfolding eq_bits test
eq_bits-of_test [] b h = is_zero-of_test b (λ i. sym (h i))
eq_bits-of_test (x ∷ a) [] h = is_zero-of_test (x ∷ a) h
eq_bits-of_test (x ∷ a) (y ∷ b) h = ground (arith, h 0, eq_bits-of_test a b (λ i. h (suc i)))

-- Equal numbers have equal bits.
pub eq_bits_iff : (a b : Bits) → (eq_bits a b ≡ true) ↔ ((i : ℕ) → test i a ≡ test i b)
eq_bits_iff a b = (eq_bits-test a b, eq_bits-of_test a b)

pub test-bit : (i j : ℕ) → test i (bit j) ≡ (i == j)
unfolding test bit
test-bit zero zero = refl
test-bit (suc i) zero = ground arith
test-bit zero (suc j) = ground arith
test-bit (suc i) (suc j) = ground (arith, test-bit i j)
