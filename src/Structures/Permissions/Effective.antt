-- ===== src/Structures/Permissions/Effective.antt =====
-- What `computePermissions` of permissions.ts grants, bit by bit.
use lunibee.Base.{
  ℕ, ◌≡◌, refl, ap, ◌∙◌, Bool, true, false, not, ◌&&◌, ◌||◌, Option, none, some, List, [], ◌∷◌,
  ◌==◌, if◌then◌else◌, Text, text_eq, arith, Bool-cases, inl, inr,
}
use lunibee.Structures.Permissions.Bits.{
  Bits, bit, or_bits, and_bits, minus_bits, is_zero, test, test-or_bits, test-and_bits,
  test-minus_bits, test-bit, some_bit, is_zero-test,
}
use lunibee.Structures.Permissions.Names.{administrator, view_channel, read_message_history}
use lunibee.Structures.Permissions.Sets.{meets}
use lunibee.Structures.Permissions.Compute.{
  PermissionRole, PermissionOverwrite, PermissionContext, all_permissions, is_text, role_bits,
  or_none, add_roles, base_permissions, find_overwrite, apply_bits, apply_overwrite,
  is_role_overwrite, is_member_overwrite, gather, channel_permissions, is_timed_out, timeout_mask,
  compute_permissions,
}

-- A role with the id grants the bit.
abbrev role_grants : List PermissionRole → ℕ → Text → Bool
role_grants roles i id = test i (or_none (role_bits id roles))

abbrev some_role_grants : List PermissionRole → ℕ → List Text → Bool
some_role_grants roles i [] = false
some_role_grants roles i (id ∷ ids) = role_grants roles i id || some_role_grants roles i ids

-- `@everyone` or a role of the member grants the bit.
abbrev base_grants : PermissionContext → ℕ → Bool
base_grants c i = role_grants c.roles i c.guild_id || some_role_grants c.roles i c.member_role_ids

-- An overwrite that the test accepts allows, or denies, the bit.
abbrev some_allow : (PermissionOverwrite → Bool) → ℕ → List PermissionOverwrite → Bool
some_allow p i [] = false
some_allow p i (o ∷ os) = p o && test i o.allow || some_allow p i os

abbrev some_deny : (PermissionOverwrite → Bool) → ℕ → List PermissionOverwrite → Bool
some_deny p i [] = false
some_deny p i (o ∷ os) = p o && test i o.deny || some_deny p i os

abbrev overrides : Option PermissionOverwrite → ℕ → Bool → Bool
overrides none i before = before
overrides (some o) i before =
    if test i o.allow then true else if test i o.deny then false else before

-- Discord's rule for a bit in a channel: the member's overwrite decides, then those of its roles,
-- where an allow wins over a deny, then that of `@everyone`, then the roles themselves.
abbrev channel_grants : PermissionContext → ℕ → Bool
channel_grants c i =
    let roles_before =
      overrides (find_overwrite (λ o. text_eq o.id c.guild_id) c.overwrites) i (base_grants c i) in
    overrides (find_overwrite (is_member_overwrite c) c.overwrites) i (
      if some_allow (is_role_overwrite c) i c.overwrites
      then true
      else if some_deny (is_role_overwrite c) i c.overwrites
      then false
      else roles_before)

-- The owner and administrators have every permission; a member in a timeout keeps only two.
abbrev pub grants : PermissionContext → ℕ → ℕ → Bool
grants c now i =
    if is_text c.owner_id c.member_id || base_grants c administrator
    then test i all_permissions
    else channel_grants c i
      && (not (is_timed_out c.timed_out_until now)
          || i == view_channel
          || i == read_message_history)

test-add_roles :
    (roles : List PermissionRole) (base : Bits) (ids : List Text) (i : ℕ)
    → test i (add_roles roles base ids) ≡ (test i base || some_role_grants roles i ids)
unfolding add_roles
test-add_roles roles base [] i = ground arith
test-add_roles roles base (id ∷ ids) i = ground (
  arith,
  test-add_roles roles (or_bits base (or_none (role_bits id roles))) ids i,
  test-or_bits i base (or_none (role_bits id roles)),
)

test-base_permissions :
    (c : PermissionContext) (i : ℕ) → test i (base_permissions c) ≡ base_grants c i
unfolding base_permissions
test-base_permissions c i =
    test-add_roles c.roles (or_none (role_bits c.guild_id c.roles)) c.member_role_ids i

test-apply_bits :
    (base deny allow : Bits) (i : ℕ)
    → test i (apply_bits base deny allow)
      ≡ (if test i allow then true else if test i deny then false else test i base)
unfolding apply_bits
test-apply_bits base deny allow i =
    ground (arith, test-or_bits i (minus_bits base deny) allow, test-minus_bits i base deny)

test-apply_overwrite :
    (base : Bits) (o : Option PermissionOverwrite) (i : ℕ)
    → test i (apply_overwrite base o) ≡ overrides o i (test i base)
test-apply_overwrite base none i = refl
test-apply_overwrite base (some o) i = test-apply_bits base o.deny o.allow i

test-gather :
    (c : PermissionContext) (allow deny : Bits) (os : List PermissionOverwrite) (i : ℕ)
    → (test i (gather c allow deny os).0 ≡ (test i allow || some_allow (is_role_overwrite c) i os))
      × (test i (gather c allow deny os).1 ≡ (test i deny || some_deny (is_role_overwrite c) i os))
unfolding gather
test-gather c allow deny [] i = (ground arith, ground arith)
test-gather c allow deny (o ∷ os) i = elim (Bool-cases (is_role_overwrite c o)) [
  | inl e ↦
      let (ha, hd) = test-gather c (or_bits allow o.allow) (or_bits deny o.deny) os i in
      rw e (
        ground (arith, ha, test-or_bits i allow o.allow),
        ground (arith, hd, test-or_bits i deny o.deny),
      )
  | inr e ↦
      let (ha, hd) = test-gather c allow deny os i in rw e (ground (arith, ha), ground (arith, hd))
]

test-channel_permissions :
    (c : PermissionContext) (i : ℕ)
    → test i (channel_permissions c (base_permissions c)) ≡ channel_grants c i
unfolding channel_permissions test
test-channel_permissions c i =
    let base = base_permissions c in
    let everyone = find_overwrite (λ o. text_eq o.id c.guild_id) c.overwrites in
    let (allow, deny) = gather c [] [] c.overwrites in
    let (ha, hd) = test-gather c [] [] c.overwrites i in
    let after_roles = apply_bits (apply_overwrite base everyone) deny allow in
    let before =
      test-apply_overwrite base everyone i
      ∙ ap (overrides everyone i) (test-base_permissions c i) in
    test-apply_overwrite after_roles (find_overwrite (is_member_overwrite c) c.overwrites) i
    ∙ ap (overrides (find_overwrite (is_member_overwrite c) c.overwrites) i)
        (test-apply_bits (apply_overwrite base everyone) deny allow i ∙ rw (ha, hd, before) refl)

-- `a & 1n << i` is true exactly when bit `i` is set.
meets-bit : (a : Bits) (i : ℕ) → meets a (bit i) ≡ test i a
unfolding meets
meets-bit a i = elim (Bool-cases (is_zero (and_bits a (bit i)))) [
  | inl e ↦
      ground
        (arith, e, is_zero-test (and_bits a (bit i)) e i, test-and_bits i a (bit i), test-bit i i)
  | inr e ↦
      let (j, t) = some_bit (and_bits a (bit i)) e in
      ground (arith, e, t, test-and_bits j a (bit i), test-bit j i)
]

-- A permission is in what `computePermissions` yields exactly when Discord's rule grants it: all of
-- them for the owner of the guild and for a member whose roles make it an administrator; else, in
-- this order of precedence, as the member's overwrite says, as the overwrites of its roles say, as
-- the overwrite of `@everyone` says, and as its roles say; and in a timeout only View Channel and
-- Read Message History are kept.
pub test-compute_permissions :
    (c : PermissionContext) (now i : ℕ) → test i (compute_permissions c now) ≡ grants c now i
unfolding compute_permissions
test-compute_permissions c now i = ground (
  arith,
  meets-bit (base_permissions c) administrator,
  test-base_permissions c administrator,
  test-channel_permissions c i,
  test-and_bits i (channel_permissions c (base_permissions c)) timeout_mask,
  test-or_bits i (bit view_channel) (bit read_message_history),
  test-bit i view_channel,
  test-bit i read_message_history,
)
