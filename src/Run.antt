-- ===== src/Run.antt =====
-- main.py: the run of the permuters, in one thread or with workers.
pub mod Cycle
pub mod Tasks
pub mod Results
pub mod Loop
pub mod Workers
mod Tests
