-- ===== src/Sharding/Identify.antt =====
-- packages/sharding/src/identify.ts: `IdentifyCoordinator`, which hands out IDENTIFY slots.
-- `State`, `Pumping` and `Calls` are the model; the other children prove what they are named for.
pub mod State
pub mod Pumping
pub mod Calls
pub mod History
pub mod Waiting
pub mod Conservation
pub mod Ungranted
pub mod Budget
pub mod Service
pub mod Closing
pub mod Buckets
pub mod Keys
pub mod BucketRounds
pub mod Ready
pub mod BucketCalls
pub mod Spacing
mod Tests
