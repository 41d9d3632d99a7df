-- ===== src/Structures/Permissions/Tests.antt =====
-- The theorems on permissions.ts at concrete inputs.
use lunibee.Base.{◌≡◌, refl, true, false, Option, none, some, [], ◌∷◌, Text, codes}
use lunibee.Structures.Permissions.Bits.{Bits, bit, or_bits, test}
use lunibee.Structures.Permissions.Names.{
  Resolvables, nil, cons, raw, named, array, resolve, resolve_all, resolve_name, resolve_current,
}
use lunibee.Structures.Permissions.Compute.{PermissionContext, compute_permissions, role}
use lunibee.Structures.Permissions.Effective.{test-compute_permissions, grants}

abbrev no_parse : Text → Option Bits
no_parse s = none

abbrev wanted : Resolvables
wanted = cons (named (codes "KickMembers")) (cons (array (cons (raw (bit 2)) nil)) nil)

abbrev wanted_bits : Bits
wanted_bits = false ∷ true ∷ true ∷ []

abbrev held : Bits
held = true ∷ true ∷ true ∷ []

wanted_resolve : resolve_all no_parse wanted ≡ some wanted_bits
unfolding resolve resolve_all resolve_name resolve_current bit or_bits
wanted_resolve = refl

-- A member whose role may send messages, which the channel denies to everyone.
abbrev context : PermissionContext
context = record {
  guild_id = codes "1";
  owner_id = some (codes "9");
  member_id = codes "2";
  member_role_ids = codes "3" ∷ [];
  roles =
      record { id = codes "1"; permissions = bit 10 }
      ∷ record { id = codes "3"; permissions = bit 11 }
      ∷ [];
  overwrites = record { id = codes "1"; type = role; allow = []; deny = bit 11 } ∷ [];
  timed_out_until = none;
}

test-compute_permissions_example : test 11 (compute_permissions context 0) ≡ grants context 0 11
test-compute_permissions_example = test-compute_permissions context 0 11
