-- ===== src/Util.antt =====
-- src/util: error codes and results.
pub mod Status
