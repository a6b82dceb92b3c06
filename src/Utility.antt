-- ===== src/Utility.antt =====
-- internal/utility: the pure helpers that the services share.
pub mod BigEndian
pub mod Mask
pub mod Password
