-- ===== src/Ws.antt =====
-- packages/ws/src: one Gateway connection. Each child models one file of that folder.
pub mod Session
pub mod CloseCodes
pub mod SlidingWindow
pub mod SendBudget
pub mod Reconnect
pub mod Heartbeat
pub mod Protocol
