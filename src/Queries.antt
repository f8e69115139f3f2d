-- ===== src/Queries.antt =====
-- The statements of internal/db/generated, a file for each table. A statement changes the tables
-- as its SQL says and returns what its Go function scans; constraint violations reach the program
-- as errors of the call (World).
pub mod Tasks
pub mod Runs
pub mod Jobs
pub mod Outbox
pub mod Files
pub mod Accounts
pub mod Rows
pub mod Leasing
pub mod Heartbeats
pub mod Exclusive
