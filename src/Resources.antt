-- ===== src/Resources.antt =====
-- emu/rsrc and emu/segment_loader.cc: the groups of a resource file, the handles that a resource is
-- loaded into, and the jump table of a loaded segment. A file's array has no watcher, so that a
-- read of it changes nothing.
pub mod Defs
pub mod Loading
pub mod Manager
pub mod Cached
pub mod Segment
pub mod Words
pub mod Jumps
pub mod Tests
