-- ===== src/Tests.antt =====
-- Concrete rows and worlds, and the theorems at work on them.
mod Data
mod Tasks
mod Services
mod Jobs
mod Drain
mod System
mod WholeRun
mod Router
mod Gateway
