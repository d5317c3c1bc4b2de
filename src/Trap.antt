-- ===== src/Trap.antt =====
-- emu/trap: the dispatch of A-line traps, with its stack and its patches.
pub mod Word
pub mod Machine
pub mod Stack
pub mod Patches
pub mod Saved
pub mod Registers
pub mod TrapName
pub mod Dispatch
pub mod Tests
