-- ===== src/Examples.antt =====
-- The development on concrete inputs: test data, and one run of each theorem that has conditions.
mod Fixtures
mod Requests
mod Domain
mod Reliability
mod Providers
mod Tasks
mod Api
mod Security
mod System
mod Schema
mod Background
mod Web
