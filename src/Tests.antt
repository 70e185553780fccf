-- ===== src/Tests.antt =====
-- Runs on small inputs, and the theorems at inputs that meet their hypotheses.
pub mod Store
pub mod Paths
pub mod Copies
pub mod Dumps
pub mod Replays
pub mod Rounds
pub mod Nodes
pub mod Commands
