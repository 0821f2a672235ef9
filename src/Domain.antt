-- ===== src/Domain.antt =====
-- The domain layer (src/domain): value objects, entities and exceptions.
pub mod Status
pub mod Errors
pub mod Delivery
pub mod Inn
pub mod CircuitState
pub mod Json
pub mod Account
pub mod Audit
pub mod DeadLetter
pub mod Document
pub mod Webhook
pub mod Incoming
