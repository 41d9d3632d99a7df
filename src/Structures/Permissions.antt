-- ===== src/Structures/Permissions.antt =====
-- packages/structures/src/permissions.ts: permission bit sets and a member's permissions.
-- `Bits` is the arithmetic of bit fields, `Names` the table of permissions and `#resolve`, `Sets`
-- the methods of `PermissionSet`, and `Compute` is `computePermissions`.
pub mod Bits
pub mod Names
pub mod Sets
pub mod Compute
pub mod SetLaws
pub mod Effective
mod Tests
