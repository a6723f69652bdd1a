-- ===== src/Fs.antt =====
-- The file systems and the path walk: src/fs.
pub mod State
pub mod Dentry
pub mod Root
pub mod File
pub mod Kvfs
pub mod Devfs
pub mod Procfs
pub mod Driver
pub mod Tables
pub mod Path
pub mod Calm
pub mod Reach
