-- ===== src/Wim.antt =====
-- The wim directory: the container of a Windows image.
pub mod Resource
pub mod Header
pub mod Chunk
pub mod BlobTable
pub mod Security
pub mod Tree
pub mod Graft
pub mod Dentry
pub mod Image
