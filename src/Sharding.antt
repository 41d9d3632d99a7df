-- ===== src/Sharding.antt =====
-- packages/sharding/src: many Gateways under one parent.
pub mod Identify
pub mod Requests
pub mod Supervisor
pub mod Leader
