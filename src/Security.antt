-- ===== src/Security.antt =====
-- src/core/security.py, src/presentation/deps.py, src/presentation/api/v1/auth.py and
-- src/infrastructure/security: tokens, the user of a request, login and refresh, and roles.
pub mod Tokens
pub mod Login
pub mod Roles
pub mod Signatures
pub mod Seed
