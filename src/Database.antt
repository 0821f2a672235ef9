-- ===== src/Database.antt =====
-- src/infrastructure/database: the tables, and the repositories that the tasks and the API use. A
-- statement acts on the rows that the session sees, and a function returns the database after it.
pub mod Rows
pub mod Deliveries
pub mod Accounts
pub mod Others
pub mod Schema
