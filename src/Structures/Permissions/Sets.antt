-- ===== src/Structures/Permissions/Sets.antt =====
-- The methods of `PermissionSet` of packages/structures/src/permissions.ts. A set is its bit field;
-- `none` is the error that a permission does not resolve.
use lunibee.Base.{ℕ, Bool, true, false, not, Option, none, some, List, [], ◌∷◌, if◌then◌else◌, Text}
use lunibee.Structures.Permissions.Bits.{Bits, bit, or_bits, and_bits, minus_bits, is_zero, eq_bits}
use lunibee.Structures.Permissions.Names.{
  Resolvable, Resolvables, nil, cons, resolve, resolve_all, permission,
}

-- `(a & b) === b`
unfoldable pub covers : Bits → Bits → Bool
covers a b = eq_bits (and_bits a b) b

-- `(a & b) !== 0n`
unfoldable pub meets : Bits → Bits → Bool
meets a b = not (is_zero (and_bits a b))

-- The getter of a permission by its bit, `(this.bitfield & p) === p`.
unfoldable pub getter : Bits → ℕ → Bool
getter set i = covers set (bit i)

module _ (parse : Text → Option Bits) where
  -- The constructor.
  unfoldable pub new_set : Resolvable → Option Bits
  new_set value = resolve parse value

  unfoldable pub has : Bits → Resolvables → Option Bool
  has set nil = some true
  has set (cons r rs) =
      let rest = has set rs in
      elim (resolve parse r) [ none ↦ none | some b ↦ if covers set b then rest else some false ]

  unfoldable pub any : Bits → Resolvables → Option Bool
  any set nil = some false
  any set (cons r rs) =
      let rest = any set rs in
      elim (resolve parse r) [ none ↦ none | some b ↦ if meets set b then some true else rest ]

  unfoldable pub add : Bits → Resolvables → Option Bits
  add set nil = some set
  add set (cons r rs) = elim (resolve parse r) [ none ↦ none | some b ↦ add (or_bits set b) rs ]

  unfoldable pub remove : Bits → Resolvables → Option Bits
  remove set nil = some set
  remove set (cons r rs) = elim (resolve parse r) [
    | none ↦ none
    | some b ↦ remove (minus_bits set b) rs
  ]

-- The known names with a bit that the test accepts.
abbrev pub names_where : (Bits → Bool) → List (Text × ℕ) → List Text
names_where p [] = []
names_where p ((name, i) ∷ xs) =
    let rest = names_where p xs in if p (bit i) then name ∷ rest else rest

unfoldable pub to_array : Bits → List Text
to_array set = names_where (covers set) permission

-- The names of `wanted` that the set has not.
abbrev pub lacking : Bits → Bits → Bits → Bool
lacking set wanted b = if covers wanted b then not (covers set b) else false

unfoldable pub missing : (Text → Option Bits) → Bits → Resolvables → Option (List Text)
missing parse set rs = elim (resolve_all parse rs) [
  | none ↦ none
  | some wanted ↦ some (names_where (lacking set wanted) permission)
]

-- For an other set, or what a value resolves to.
unfoldable pub equals : Bits → Bits → Bool
equals set other = eq_bits set other
