-- ===== src/Collection.antt =====
-- packages/collection/src/index.ts: `Collection`, a map with a time to live and a size cap.
pub mod Maps
pub mod Heap
pub mod Policy
pub mod Filed
pub mod Store
pub mod Keyed
pub mod Derived
mod Tests
