-- ===== src/Memory.antt =====
-- The emulated memory: raw bytes and their order, the regions through which every access goes,
-- the handle allocator, the memory map and the sequential reader.
pub mod Bytes
pub mod Region
pub mod Tests
pub mod MapTests
pub mod Manager
pub mod Map
pub mod Reader
