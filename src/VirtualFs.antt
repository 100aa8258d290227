-- ===== src/VirtualFs.antt =====
-- src/virtual_fs/mod.rs: the file system over the inode table and the buffers.
pub mod Read
