-- ===== src/Xpress/Stream.antt =====
-- The bit writer and the bit reader of xpress/ against each other: what the finished buffer holds at
-- the writer's slots, and the reader that keeps step with the writer.
pub mod Writes
pub mod Pending
pub mod Final
pub mod Flush
pub mod Window
pub mod Sync
pub mod Take
