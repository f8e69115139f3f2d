-- ===== src/Worker/WholeRun.antt =====
-- A run from its first task to its end, when every task succeeds (services/worker).
pub mod Pending
pub mod Turn
pub mod States
pub mod Round
pub mod Rounds
