-- ===== src/Perm.antt =====
-- tools/decomp-permuter/src/perm: the PERM macros, their seeds, and their evaluation.
pub mod Shuffle
pub mod Tree
pub mod State
pub mod Evaluate
pub mod Variation
pub mod Sound
pub mod Complete
pub mod Keys
pub mod Root
pub mod Split
pub mod Parse
pub mod Seeds
pub mod Whole
mod Tests
