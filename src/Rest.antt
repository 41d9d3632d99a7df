-- ===== src/Rest.antt =====
-- packages/rest/src: requests to the HTTP API of Discord.
pub mod Scheduler
