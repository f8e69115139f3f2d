-- ===== src/Worker/Drain.antt =====
-- Why the workers' polls come to an end: the attempts that the pending tasks have left.
pub mod Measure
pub mod Rows
pub mod Limits
pub mod Held
pub mod Polls
pub mod Rounds
