-- ===== src/Memory/Manager.antt =====
-- emu/memory/memory_manager.{h,cc}, with the constants of emu/memory/memory_map.h that it stands on.
-- The state is the manager's fields and the system memory that it writes to. std::map is a list
-- that is kept in the order of its keys. `crash` is a CHECK that fails.
pub mod Defs
pub mod Table
pub mod Cells
pub mod Invariant
pub mod Blocks
pub mod Copy
