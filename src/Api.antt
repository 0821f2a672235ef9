-- ===== src/Api.antt =====
-- src/presentation: the endpoints, as functions of the user and of what the request's database session
-- holds.
pub mod Sessions
pub mod Documents
pub mod Dlq
pub mod Accounts
pub mod Audit
pub mod Incoming
pub mod Webhooks
pub mod Errors
pub mod Status
pub mod Middleware
