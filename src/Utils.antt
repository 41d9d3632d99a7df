-- ===== src/Utils.antt =====
-- packages/utils/src: helpers of the other packages.
pub mod Args
