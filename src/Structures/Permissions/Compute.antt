-- ===== src/Structures/Permissions/Compute.antt =====
-- `computePermissions` of packages/structures/src/permissions.ts. The permissions of roles and
-- overwrites are the bit fields that they resolve to; a value that does not resolve throws.
use lunibee.Base.{
  ℕ, Bool, true, false, not, ◌&&◌, Option, none, some, List, [], ◌∷◌, ltb, if◌then◌else◌, Text,
  text_eq,
}
use lunibee.Structures.Permissions.Bits.{Bits, bit, or_bits, and_bits, minus_bits}
use lunibee.Structures.Permissions.Names.{
  permission, administrator, view_channel, read_message_history,
}
use lunibee.Structures.Permissions.Sets.{meets}

pub data PermissionOverwriteEnum : Type 0 where
  role member : PermissionOverwriteEnum

pub record PermissionRole : Type 0 where
  pub id : Text
  pub permissions : Bits

pub record PermissionOverwrite : Type 0 where
  pub id : Text
  pub type : PermissionOverwriteEnum
  pub allow : Bits
  pub deny : Bits

pub record PermissionContext : Type 0 where
  pub guild_id : Text
  pub owner_id : Option Text
  pub member_id : Text
  pub member_role_ids : List Text
  pub roles : List PermissionRole
  pub overwrites : List PermissionOverwrite
  pub timed_out_until : Option ℕ

abbrev pub bits_of_all : List (Text × ℕ) → Bits
bits_of_all [] = []
bits_of_all ((name, i) ∷ xs) = or_bits (bit i) (bits_of_all xs)

-- `ALL_PERMISSIONS`
unfoldable pub all_permissions : Bits
all_permissions = bits_of_all permission

abbrev pub is_text : Option Text → Text → Bool
is_text none s = false
is_text (some t) s = text_eq t s

-- The permissions of the last role with the id, or none.
unfoldable pub role_bits : Text → List PermissionRole → Option Bits
role_bits id [] = none
role_bits id (r ∷ rs) = elim (role_bits id rs) [
  | none ↦ if text_eq r.id id then some r.permissions else none
  | some b ↦ some b
]

abbrev pub or_none : Option Bits → Bits
or_none none = []
or_none (some b) = b

unfoldable pub add_roles : List PermissionRole → Bits → List Text → Bits
add_roles roles base [] = base
add_roles roles base (id ∷ ids) = add_roles roles (or_bits base (or_none (role_bits id roles))) ids

unfoldable pub base_permissions : PermissionContext → Bits
base_permissions c = add_roles c.roles (or_none (role_bits c.guild_id c.roles)) c.member_role_ids

abbrev pub has_id : Text → List Text → Bool
has_id s [] = false
has_id s (t ∷ ts) = if text_eq t s then true else has_id s ts

-- `Array.prototype.find`
abbrev pub find_overwrite :
    (PermissionOverwrite → Bool) → List PermissionOverwrite → Option PermissionOverwrite
find_overwrite p [] = none
find_overwrite p (o ∷ os) = if p o then some o else find_overwrite p os

-- `(base & ~deny) | allow`
unfoldable pub apply_bits : Bits → Bits → Bits → Bits
apply_bits base deny allow = or_bits (minus_bits base deny) allow

abbrev pub apply_overwrite : Bits → Option PermissionOverwrite → Bits
apply_overwrite base none = base
apply_overwrite base (some o) = apply_bits base o.deny o.allow

abbrev pub is_role : PermissionOverwriteEnum → Bool
is_role role = true
is_role member = false

-- An overwrite of a role of the member, other than `@everyone`.
unfoldable pub is_role_overwrite : PermissionContext → PermissionOverwrite → Bool
is_role_overwrite c o =
    is_role o.type && not (text_eq o.id c.guild_id) && has_id o.id c.member_role_ids

abbrev pub is_member_overwrite : PermissionContext → PermissionOverwrite → Bool
is_member_overwrite c o = not (is_role o.type) && text_eq o.id c.member_id

-- The loop over the role overwrites, with `allow` and `deny`.
unfoldable pub gather : PermissionContext → Bits → Bits → List PermissionOverwrite → Bits × Bits
gather c allow deny [] = (allow, deny)
gather c allow deny (o ∷ os) =
    let hit = is_role_overwrite c o in
    gather c (if hit then or_bits allow o.allow else allow)
      (if hit then or_bits deny o.deny else deny) os

unfoldable pub channel_permissions : PermissionContext → Bits → Bits
channel_permissions c base =
    let (allow, deny) = gather c [] [] c.overwrites in
    apply_overwrite
      (apply_bits
        (apply_overwrite base (find_overwrite (λ o. text_eq o.id c.guild_id) c.overwrites)) deny
        allow)
      (find_overwrite (is_member_overwrite c) c.overwrites)

-- `until > Date.now()`; no timeout counts as 0.
abbrev pub is_timed_out : Option ℕ → ℕ → Bool
is_timed_out none now = false
is_timed_out (some until) now = ltb now until

abbrev pub timeout_mask : Bits
timeout_mask = or_bits (bit view_channel) (bit read_message_history)

unfoldable pub compute_permissions : PermissionContext → ℕ → Bits
compute_permissions c now =
    let base = base_permissions c in
    let resolved = channel_permissions c base in
    if is_text c.owner_id c.member_id
    then all_permissions
    else if meets base (bit administrator)
    then all_permissions
    else if is_timed_out c.timed_out_until now
    then and_bits resolved timeout_mask
    else resolved
