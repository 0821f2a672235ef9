-- ===== src/System.antt =====
-- The service as a whole: what every sequence of requests and runs of tasks keeps, in any order.
pub mod Sound
pub mod Runs
pub mod Requests
pub mod Reachable
