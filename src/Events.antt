-- ===== src/Events.antt =====
-- emu/event_manager.{h,cc}: the event queue between the host's threads and the application. A
-- method that takes the mutex is one step. NowTicks is an argument of the calls that read it.
-- Fields that a caller does not set are taken for zero. PrintEvents only logs.
pub mod Defs
pub mod Queue
pub mod Wait
pub mod Tests
