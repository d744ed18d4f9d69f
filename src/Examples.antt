-- ===== src/Examples.antt =====
-- Concrete inputs on which the theorems are applied.
pub mod Memory
pub mod Blocks
pub mod Forest
pub mod BufferRuns
pub mod VolumeRuns
pub mod PathRuns
pub mod TreeRuns
pub mod WriteRuns
pub mod SplitRuns
pub mod MountRuns
pub mod PosixRuns
