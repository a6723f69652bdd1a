-- ===== src/Pmm.antt =====
-- The allocator of physical memory: src/pmm.c, with include/pmm.h.
mod Tests
pub mod Init
pub mod Bytes
pub mod Links
pub mod Split
pub mod Place
pub mod Move
pub mod Keep
pub mod Live
pub mod Join
pub mod Take
pub mod Head
pub mod Ready
pub mod Release
pub mod Block
pub mod Alloc
pub mod Free
pub mod Search
pub mod Address
