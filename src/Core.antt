-- ===== src/Core.antt =====
-- The core layer (src/core): settings and tokens.
pub mod Config
pub mod Environment
pub mod Logging
