-- ===== src/Windows.antt =====
-- emu/window_manager.{h,cc}: the list of windows from front to back, the records of the windows
-- and the regions behind their handles. A record lies at its pointer, and one that is not
-- within the memory ends the process; a region or a title lies behind a handle that is fresh, with
-- the CHECKs of the allocation. That blocks do not overlap is the memory manager's promise. What is
-- drawn on the screen is left out. The clock is an argument of the calls that queue events.
pub mod Defs
pub mod Ops
pub mod Places
pub mod Front
pub mod Past
pub mod Turn
pub mod Refresh
pub mod Select
pub mod Overlay
pub mod Visible
pub mod Hit
pub mod Drag
pub mod Outline
pub mod Tests
pub mod OutlineTests
