-- ===== src/Scorer.antt =====
-- tools/decomp-permuter/src/scorer.py: the penalties of a candidate's disassembly against the
-- target's.
pub mod Fields
pub mod Penalties
pub mod Sameline
pub mod Diff
pub mod Score
pub mod Moves
pub mod Accounting
pub mod Match
mod Tests
