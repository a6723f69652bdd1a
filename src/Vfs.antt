-- ===== src/Vfs.antt =====
-- The system calls of src/vfs.c.
pub mod Calls
pub mod Descriptors
pub mod Table
pub mod Release
pub mod Balance
pub mod Open
mod Tests
