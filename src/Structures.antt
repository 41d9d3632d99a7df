-- ===== src/Structures.antt =====
-- packages/structures/src: what the data classes compute.
pub mod Permissions
