-- ===== src/Lib.antt =====
-- Cyder runs classic 68k Macintosh applications: an emulated processor with native code for the
-- system's traps. This library models the parts of it that hold the state: the memory and the
-- handles in it, the queues of events, the windows with their regions, the pixels of the screen, the
-- resources with the segments that are loaded from them, and the way into and out of a trap. Its
-- files and the code that they are about:
--
--   Base                 numbers, lists, signed integers and `Status`: core/status_helpers.h
--   Memory/Bytes         arrays of bytes and byte order: core/endian_helpers.h
--   Memory/Region        MemoryRegion: core/memory_region.{h,cc}
--   Memory/Reader        MemoryReader: core/memory_reader.{h,cc}
--   Memory/Manager       MemoryManager: emu/memory/memory_manager.{h,cc}
--   Memory/Map           CheckReadAccess, CheckWriteAccess, SetA5WorldBounds, LogRegionAccess:
--                        emu/memory/memory_map.{h,cc}
--   Events               EventManager: emu/event_manager.{h,cc}
--   Graphics/Rect        emu/graphics/graphics_helpers.h
--   Graphics/Rows        the row operations of emu/graphics/region.cc
--   Graphics/Region      RegionOp and the operations on regions: emu/graphics/region.cc
--   Graphics/Region/Data Offset on the bytes of a region, over MemoryReader: emu/graphics/region.cc
--   Graphics/Bitmap      the fills of BitmapImage and TempClipRect: emu/graphics/bitmap_image.{h,cc}
--   Windows              WindowManager: emu/window_manager.{h,cc}, emu/memory/memory_helpers.h
--   Resources/Defs       the resource fork: emu/rsrc/{resource,resource_group,resource_file}.cc
--   Resources/Manager    ResourceManager: emu/rsrc/resource_manager.cc
--   Resources/Segment    SegmentLoader: emu/segment_loader.cc
--   Trap/Word            emu/trap/trap_helpers.h
--   Trap/Machine         emu/trap/stack_helpers.h, with the registers of the processor
--   Trap/Dispatch        TrapManager: emu/trap/trap_manager.cc
--   Debug                DebugManager: emu/debug/debug_manager.{h,cc}
--
-- The functions have the names of the code, in lower case with underscores. A member function is a
-- function from the state of its object, a record, to the new state; where it can fail it gives a
-- `Status`: a value, an error, or the end of the process by a CHECK or a MUST. The memory manager,
-- the traps and the segment loader work on the bytes of the system memory, through the model of
-- MemoryRegion, and a resource that is loaded is copied byte by byte. The window manager works on
-- the records of the windows and on the regions behind their handles, which are numbered: the CHECKs
-- on the heap, the number of handles and the place of a record are those of the code. It uses the
-- regions, the event queues and the rectangles as they are modelled here.
-- Traps and events are given as sequences of steps: a wait is what arrives meanwhile, and a drag the
-- events that GetNextEvent gives; what its outline does to the screen is in Windows/Outline.
--
-- An int16_t is an integer with its conversion written out, a uint32_t or size_t a number modulo
-- 2 ^ 32 or 2 ^ 64. FillRect, FillRegion and the loops over entries recur on the rows or entries that
-- are left. Offset on the data of a region has fuel for its bytes, of which each turn reads at least
-- one. The boolean operations take regions as lists of scanlines, and rows as lists of ranges. The
-- lookup of a global's name (generated code), the handlers of single traps, the loading of segments
-- as the dispatch calls it, and the text that names a resource are parameters. Menus, dialogs,
-- fonts, pictures, the drawing of windows, files on the disk, the processor core and all output are
-- not modelled. A log message has no effect on the state, but the name of a trap is looked up for
-- one, and a trap without a name ends the process there: the traps that GetTrapName (generated code)
-- names are a parameter.
pub mod Base
pub mod Memory
pub mod Events
pub mod Graphics
pub mod Trap
pub mod Windows
pub mod Resources
pub mod Debug
