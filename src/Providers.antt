-- ===== src/Providers.antt =====
-- src/infrastructure/providers and application/interfaces: the adapters of the four providers. HTTP, the
-- JSON of a response and the texts that Python shows of values are parameters.
pub mod Interface
pub mod Factory
pub mod Calls
pub mod Http
pub mod Diadoc
pub mod Kontur
pub mod Sbis
pub mod StatusMaps
pub mod Stub
pub mod Webhooks
