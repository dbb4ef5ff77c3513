-- ===== src/Regf.antt =====
-- The regf directory: keys and values of a registry hive.
pub mod Values
pub mod Key
pub mod Encoding
pub mod Cells
pub mod Bins
pub mod Arena
pub mod Subkeys
pub mod BaseBlock
pub mod Data
