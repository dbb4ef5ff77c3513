-- ===== src/Tests.antt =====
-- Runs of the code at concrete inputs, and the theorems applied to them.
pub mod Formats
pub mod Trees
pub mod Registry
pub mod Hives
pub mod Images
pub mod Subkeys
pub mod BaseBlocks
pub mod ValueData
pub mod Xpress
