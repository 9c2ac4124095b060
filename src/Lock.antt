-- ===== src/Lock.antt =====
-- The locks of cpl-standalone/cpl-lock.cpp.
pub mod Spin
pub mod UniqueId
