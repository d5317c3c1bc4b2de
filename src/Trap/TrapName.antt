-- ===== src/Trap/TrapName.antt =====
-- The traps of gen/trap_names.txt that the manager names.
use cyder.Base.{ℕ}

abbrev pub set_trap_address : ℕ
set_trap_address = 0xA047

abbrev pub get_trap_address : ℕ
get_trap_address = 0xA146

abbrev pub get_os_trap_address : ℕ
get_os_trap_address = 0xA346

abbrev pub set_tool_box_trap_address : ℕ
set_tool_box_trap_address = 0xA647

abbrev pub get_tool_box_trap_address : ℕ
get_tool_box_trap_address = 0xA746

abbrev pub unimplemented : ℕ
unimplemented = 0xA89F

abbrev pub load_seg : ℕ
load_seg = 0xA9F0
