-- ===== src/Net.antt =====
-- tools/decomp-permuter/src/net: permuter@home, its messages and its processes.
pub mod Data
pub mod Wire
pub mod Frames
pub mod Server
pub mod Evaluator
pub mod Protocol
pub mod Client
mod Tests
