-- ===== src/Structures/Permissions/SetLaws.antt =====
-- The methods of `PermissionSet` of permissions.ts, bit by bit.
use lunibee.Base.{
  ==_self, if◌then◌else◌, ℕ, ◌≡◌, ◌↔◌, refl, sym, ap, ◌∙◌, Bool, true, false, not, ◌&&◌, ◌||◌,
  Option, some, List, [], ◌∷◌, Text, arith, Bool-cases, Option-cases, inl, inr, false≢true,
}
use lunibee.Structures.Permissions.Bits.{
  test-bit, Bits, bit, or_bits, and_bits, minus_bits, test, test-or_bits, test-and_bits,
  test-minus_bits, eq_bits_iff,
}
use lunibee.Structures.Permissions.Names.{
  Resolvable, Resolvables, nil, cons, resolve, resolve_all, permission,
}
use lunibee.Structures.Permissions.Sets.{
  to_array, getter, covers, has, add, remove, missing, names_where, lacking,
}
use mathlib.Core.Option.{some-injective}

-- Every bit of `b` is in `a`.
abbrev pub Includes : Bits → Bits → Type 0
Includes a b = (i : ℕ) → test i b ≡ true → test i a ≡ true

covers-Includes : (a b : Bits) → covers a b ≡ true → Includes a b
unfolding covers
covers-Includes a b h i t =
    ground (arith, (eq_bits_iff (and_bits a b) b).0 h i, test-and_bits i a b)

Includes-covers : (a b : Bits) → Includes a b → covers a b ≡ true
unfolding covers
Includes-covers a b h =
    (eq_bits_iff (and_bits a b) b).1 (λ i. ground (arith, test-and_bits i a b, h i))

resolve_cons :
    (parse : Text → Option Bits) (r : Resolvable) (rs : Resolvables) (w : Bits)
    → resolve_all parse (cons r rs) ≡ some w
    → (b : Bits) × (w' : Bits) × (resolve parse r ≡ some b)
      × (resolve_all parse rs ≡ some w')
      × (w ≡ or_bits b w')
unfolding resolve_all
resolve_cons parse r rs w h = elim (Option-cases (resolve parse r)) [
  | inl e ↦ absurd (ground (arith, e))
  | inr (b, e) ↦ elim (Option-cases (resolve_all parse rs)) [
    | inl e' ↦ absurd (ground (arith, e, e'))
    | inr (w', e') ↦ (b, w', e, e', ground (arith, e, e'))
  ]
]

resolve_nil :
    (parse : Text → Option Bits) (w : Bits)
    → resolve_all parse nil ≡ some w
    → (i : ℕ) → test i w ≡ false
unfolding resolve_all test
resolve_nil parse w h i = ap (test i) (sym (some-injective _ _ h))

Includes-or : (a b c : Bits) → Includes a b → Includes a c → Includes a (or_bits b c)
Includes-or a b c hb hc i t = ground (arith, test-or_bits i b c, hb i, hc i)

module _ (parse : Text → Option Bits) where
  has-Includes :
      (set : Bits) (rs : Resolvables) (w : Bits)
      → resolve_all parse rs ≡ some w
      → has parse set rs ≡ some true
      → Includes set w
  unfolding has
  has-Includes set nil w r h = λ i t. absurd (false≢true (sym (resolve_nil parse w r i) ∙ t))
  has-Includes set (cons p rs) w r h =
      let (b, w', e, e', eq) = resolve_cons parse p rs w r in
      elim (Bool-cases (covers set b)) [
        | inl c ↦ rw eq (
            Includes-or set b w' (covers-Includes set b c)
              (has-Includes set rs w' e' (ground (arith, e, c))))
        | inr c ↦ absurd (ground (arith, e, c))
      ]

  Includes-has :
      (set : Bits) (rs : Resolvables) (w : Bits)
      → resolve_all parse rs ≡ some w
      → Includes set w
      → has parse set rs ≡ some true
  unfolding has
  Includes-has set nil w r h = refl
  Includes-has set (cons p rs) w r h =
      let (b, w', e, e', eq) = resolve_cons parse p rs w r in
      let first : Includes set b = λ i t. h i (rw (eq, test-or_bits i b w', t)) in
      let later : Includes set w' = λ i t. h i (rw (eq, test-or_bits i b w') (ground (arith, t))) in
      ground (arith, e, Includes-covers set b first, Includes-has set rs w' e' later)

  -- `has` holds of permissions that resolve exactly when every bit of each of them is in the set.
  pub has_iff :
      (set : Bits) (rs : Resolvables) (w : Bits)
      → resolve_all parse rs ≡ some w
      → (has parse set rs ≡ some true) ↔ Includes set w
  has_iff set rs w r = (has-Includes set rs w r, Includes-has set rs w r)

  add-test :
      (set : Bits) (rs : Resolvables) (w : Bits)
      → resolve_all parse rs ≡ some w
      → (t : Bits) × (add parse set rs ≡ some t) × ((i : ℕ) → test i t ≡ (test i set || test i w))
  unfolding add
  add-test set nil w r = (set, refl, λ i. ground (arith, resolve_nil parse w r i))
  add-test set (cons p rs) w r =
      let (b, w', e, e', eq) = resolve_cons parse p rs w r in
      let (t, is, bits) = add-test (or_bits set b) rs w' e' in
      (
        t,
        ground (arith, e, is),
        λ i. ground (arith, bits i, eq, test-or_bits i set b, test-or_bits i b w', ap (test i) eq),
      )

  remove-test :
      (set : Bits) (rs : Resolvables) (w : Bits)
      → resolve_all parse rs ≡ some w
      → (t : Bits) × (remove parse set rs ≡ some t)
        × ((i : ℕ) → test i t ≡ (test i set && not (test i w)))
  unfolding remove
  remove-test set nil w r = (set, refl, λ i. ground (arith, resolve_nil parse w r i))
  remove-test set (cons p rs) w r =
      let (b, w', e, e', eq) = resolve_cons parse p rs w r in
      let (t, is, bits) = remove-test (minus_bits set b) rs w' e' in
      (
        t,
        ground (arith, e, is),
        λ i. ground (arith, bits i, test-minus_bits i set b, test-or_bits i b w', ap (test i) eq),
      )

  -- Adding and then removing permissions that resolve leaves a set that has none of their bits and
  -- agrees with the first one on every other bit.
  pub remove-add :
      (set : Bits) (rs : Resolvables) (w : Bits)
      → resolve_all parse rs ≡ some w
      → (s t : Bits) × (add parse set rs ≡ some s)
        × (remove parse s rs ≡ some t)
        × ((i : ℕ) → test i s ≡ (test i set || test i w))
        × ((i : ℕ) → test i t ≡ (test i set && not (test i w)))
  remove-add set rs w r =
      let (s, is, bits) = add-test set rs w r in
      let (t, is', bits') = remove-test s rs w r in
      (s, t, is, is', bits, λ i. ground (arith, bits i, bits' i))

-- No name is kept of those that a test rejects.
names_where-none :
    (p : Bits → Bool) (xs : List (Text × ℕ)) → ((b : Bits) → p b ≡ false) → names_where p xs ≡ []
names_where-none p [] h = refl
names_where-none p ((name, i) ∷ xs) h = ground (arith, h (bit i), names_where-none p xs h)

lacking-Includes : (set wanted b : Bits) → Includes set wanted → lacking set wanted b ≡ false
lacking-Includes set wanted b h = elim (Bool-cases (covers wanted b)) [
  | inl c ↦ ground (arith, c, Includes-covers set b (λ i t. h i (covers-Includes wanted b c i t)))
  | inr c ↦ ground (arith, c)
]

-- When a set has all of some permissions that resolve, `missing` names none of them.
pub missing-has :
    (parse : Text → Option Bits) (set : Bits) (rs : Resolvables) (w : Bits)
    → resolve_all parse rs ≡ some w
    → has parse set rs ≡ some true
    → missing parse set rs ≡ some []
unfolding missing
missing-has parse set rs w r h =
    let none_lacks =
      names_where-none (lacking set w) permission
        (λ b. lacking-Includes set w b ((has_iff parse set rs w r).0 h)) in
    ground (arith, r, none_lacks)

covers-bit : (set : Bits) (i : ℕ) → covers set (bit i) ≡ test i set
covers-bit set i = elim (Bool-cases (test i set)) [
  | inl t ↦ Includes-covers set (bit i) (λ j h. ground (arith, t, h, test-bit j i)) ∙ sym t
  | inr t ↦ elim (Bool-cases (covers set (bit i))) [
    | inr c ↦ c ∙ sym t
    | inl c ↦
        absurd (false≢true (sym t ∙ covers-Includes set (bit i) c i (test-bit i i ∙ ==_self i)))
  ]
]

-- The names whose bit is chosen.
abbrev pub names_of : (ℕ → Bool) → List (Text × ℕ) → List Text
names_of p [] = []
names_of p ((name, i) ∷ xs) = if p i then name ∷ names_of p xs else names_of p xs

names_where-names_of :
    (set : Bits) (xs : List (Text × ℕ))
    → names_where (covers set) xs ≡ names_of (λ i. test i set) xs
names_where-names_of set [] = refl
names_where-names_of set ((name, i) ∷ xs) =
    ground (arith, covers-bit set i, names_where-names_of set xs)

-- The getter of a permission tells whether its bit is set, and `toArray` gives exactly the known
-- names whose getter holds, in the order of the table.
pub getter-to_array :
    (set : Bits)
    → ((i : ℕ) → getter set i ≡ test i set) × (to_array set ≡ names_of (λ i. test i set) permission)
unfolding getter to_array
getter-to_array set =
    let getter_is_bit : (i : ℕ) → covers set (bit i) ≡ test i set = covers-bit set in
    (getter_is_bit, names_where-names_of set permission)
