-- ===== src/Trap/Dispatch.antt =====
-- emu/trap/trap_manager.cc: entry, dispatch and exit of a trap, and the patches. The handlers of
-- emu/trap/trap_dispatcher.cc and the segment loader's Load are parameters: steps of the machine.
use cyder.Base.{
  ℕ, ◌+◌, ◌-◌, ◌*◌, ◌%◌, ◌^◌, Bool, ◌&&◌, ◌||◌, List, Option, none, some, ltb, leb, ◌==◌,
  if◌then◌else◌, Status, ok, ◌>>=◌, ◌>>◌, must, check,
}
use cyder.Memory.Region.{read_uint}
use cyder.Memory.Manager.Defs.{system_memory, system_memory_size, u32}
use cyder.Memory.Manager.Table.{find, insert, erase, assign}
use cyder.Trap.Word.{
  is_toolbox, is_system, extract_index, extract_system_index, extract_toolbox_index,
  is_auto_pop_set, should_save_a0,
}
use cyder.Trap.TrapName
use cyder.Trap.Machine.{Machine, push, pop}

-- emu/memory/memory_map.h
abbrev pub trap_manager_exit_address : ℕ
trap_manager_exit_address = system_memory_size - 2 - 4

abbrev pub base_system_trap_address : ℕ
base_system_trap_address = trap_manager_exit_address - 256 * 2

abbrev pub base_toolbox_trap_address : ℕ
base_toolbox_trap_address = base_system_trap_address - 1024 * 2

unfoldable pub get_trap_address : ℕ → Machine → ℕ
unfolding find is_toolbox extract_index
get_trap_address trap m =
    if trap == TrapName.unimplemented then 0 else elim (find trap m.patch_trap_addresses) [
      | some address ↦ address
      | none ↦
          if is_toolbox trap
          then base_toolbox_trap_address + extract_index trap * 2
          else base_system_trap_address + extract_index trap * 2
    ]

unfoldable pub set_patch : ℕ → ℕ → List (ℕ × ℕ) → List (ℕ × ℕ)
unfolding find insert assign
set_patch trap address patches = elim (find trap patches) [
  | some old ↦ assign trap address patches
  | none ↦ insert trap address patches
]

-- The new patch is logged with GetTrapName of the trap, which ends the process for a trap that
-- has none: the generated function is known by the traps that it names.
unfoldable pub set_trap_address : (ℕ → Bool) → ℕ → ℕ → Machine → Status Machine
unfolding set_patch erase check
set_trap_address has_name trap address m =
    if leb base_toolbox_trap_address address && ltb address trap_manager_exit_address
    then ok (record m { patch_trap_addresses = erase trap m.patch_trap_addresses })
    else (check (has_name trap)
        >> ok (record m { patch_trap_addresses = set_patch trap address m.patch_trap_addresses }))

-- The trap whose address GetTrapAddress looks up, from the number in D0. The bits that the source
-- sets by `|=` are clear in a number below 0xFF, so they are added.
unfoldable pub trap_of_number : ℕ → ℕ
trap_of_number trap_index =
    let is_system_number = ltb trap_index 0x4F || trap_index == 0x54 || trap_index == 0x57 in
    if ltb trap_index 0xFF
    then 0xA000 + (if is_system_number then trap_index else trap_index + 2 ^ 11)
    else trap_index

-- InternalDispatch; `none` is false, with the machine as it was.
unfoldable pub internal_dispatch : (ℕ → Bool) → ℕ → Machine → Status (Option Machine)
unfolding get_trap_address set_trap_address trap_of_number extract_system_index
    extract_toolbox_index
internal_dispatch has_name trap_op m =
    if trap_op == TrapName.get_os_trap_address
    then ok (some (record m { a0 = get_trap_address (extract_system_index (m.d0 % 2 ^ 16)) m }))
    else if trap_op == TrapName.get_tool_box_trap_address
    then ok (some (record m { a0 = get_trap_address (extract_toolbox_index (m.d0 % 2 ^ 16)) m }))
    else if trap_op == TrapName.get_trap_address
    then ok (some (record m { a0 = get_trap_address (trap_of_number (m.d0 % 2 ^ 16)) m }))
    else if trap_op == TrapName.set_trap_address
    then (set_trap_address has_name (m.d0 % 2 ^ 16) m.a0 m >>= λ m'. ok (some m'))
    else if trap_op == TrapName.set_tool_box_trap_address
    then (set_trap_address has_name (m.d0 % 2 ^ 16) m.a0 m >>= λ m'. ok (some m'))
    else ok none

-- The registers that a system trap keeps on the stack, and its opcode in D1.
unfoldable pub save_registers : ℕ → Machine → Status Machine
unfolding push should_save_a0
save_registers trap_op m = do
  m0 ← (if should_save_a0 trap_op then push 4 m.a0 m else ok m)
  m1 ← push 4 m0.a1 m0
  m2 ← push 4 m1.d1 m1
  m3 ← push 4 m2.d2 m2
  ok (record m3 { d1 = trap_op })

unfoldable pub perform_trap_exit : Machine → Status Machine
unfolding pop should_save_a0
perform_trap_exit m = do
  let trap_op = m.d1 % 2 ^ 16
  p2 ← pop 4 m
  p1 ← pop 4 (record (p2.1) { d2 = p2.0 })
  p0 ← pop 4 (record (p1.1) { d1 = p1.0 })
  let restored = record (p0.1) { a1 = p0.0 }
  (if should_save_a0 trap_op
      then (pop 4 restored >>= λ p. ok (record (p.1) { a0 = p.0 }))
      else ok restored)

module _ (has_name : ℕ → Bool) (dispatch load_segment : ℕ → Machine → Status Machine) where
  -- HandleLoadSegmentTrap, with the new return address.
  unfoldable pub handle_load_segment_trap : ℕ → Machine → Status (ℕ × Machine)
  unfolding must pop
  handle_load_segment_trap return_address m = do
    segment ← pop 2 m
    loaded ← must (load_segment segment.0 segment.1)
    ok (u32 (return_address + 2 ^ 32 - 6), loaded)

  -- An index has at most 10 bits, so that the bits of the opcode are added to it.
  unfoldable pub perform_trap_dispatch : ℕ → Bool → Machine → Status Machine
  unfolding must check pop push extract_index internal_dispatch handle_load_segment_trap
  perform_trap_dispatch trap_index toolbox m = do
    let trap_op = if toolbox then 0xA000 + trap_index + 2 ^ 11 else m.d1 % 2 ^ 16
    check (toolbox || trap_index == extract_index trap_op)
    popped ← pop 4 m
    let return_address = popped.0
    handled ←
        (if trap_op == TrapName.load_seg
          then handle_load_segment_trap return_address popped.1
          else internal_dispatch has_name trap_op popped.1 >>= λ handled_here. elim handled_here [
            | some done ↦ ok (return_address, done)
            | none ↦ must (dispatch trap_op popped.1) >>= λ done. ok (return_address, done)
          ])
    push 4 handled.0 handled.1

  -- The address at which the processor goes on. The debugger is told the trap's name.
  unfoldable pub perform_trap_entry : Machine → Status (ℕ × Machine)
  unfolding must check pop push is_system is_toolbox is_auto_pop_set save_registers find
      perform_trap_dispatch extract_index
  perform_trap_entry m = do
    fetched ← must (read_uint 2 system_memory m.pc m.memory)
    let m' = record m { memory = fetched.1 }
    called ← (if is_auto_pop_set fetched.0 then pop 4 m' else ok (u32 (m.pc + 2), m'))
    let trap_op = if is_auto_pop_set fetched.0 then fetched.0 - 2 ^ 10 else fetched.0
    check (has_name trap_op)
    pushed ← push 4 called.0 called.1
    saved ← (if is_system trap_op then save_registers trap_op pushed else ok pushed)
    elim (find trap_op saved.patch_trap_addresses) [
      | some address ↦
          if is_system trap_op
          then (push 4 trap_manager_exit_address saved >>= λ m4. ok (address, m4))
          else ok (address, saved)
      | none ↦ do
        dispatched ← perform_trap_dispatch (extract_index trap_op) (is_toolbox trap_op) saved
        if is_system trap_op then ok (trap_manager_exit_address, dispatched) else pop 4 dispatched
    ]
