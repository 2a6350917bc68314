-- ===== src/Permuter.antt =====
-- permuter.py: the evaluation of candidates, and which results of a run are written.
pub mod State
pub mod Output
pub mod Seeds
pub mod Create
pub mod Evaluation
mod Tests
