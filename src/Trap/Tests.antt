-- ===== src/Trap/Tests.antt =====
-- The theorems on traps at small instances.
use cyder.Base.{
  ℕ, Bool, ◌||◌, ◌+◌, ◌*◌, ◌%◌, ◌^◌, ◌≡◌, refl, false, [], ◌∷◌, some, none, ok, arith,
  if◌then◌else◌, ◌==◌,
}
use cyder.Memory.Region.{Store}
use cyder.Memory.Manager.Cells.{stored}
use cyder.Memory.Manager.Table.{find}
use cyder.Trap.TrapName
use cyder.Trap.Word.{should_save_a0}
use cyder.Trap.Machine.{Machine, push, pop}
use cyder.Trap.Stack.{pop-push, push_lem}
use cyder.Trap.Dispatch.{
  save_registers, perform_trap_exit, get_trap_address, set_trap_address, internal_dispatch,
  base_system_trap_address,
}
use cyder.Trap.Registers.{Restores, perform_trap_exit-save_registers}
use cyder.Trap.Saved.{pushed, saved, save_registers_lem}
use cyder.Trap.Patches.{get_trap_address-set_trap_address, get_tool_box_trap_address_gives_system}

abbrev machine : Machine
machine = record {
  d0 = 0x1A9;
  d1 = 11;
  d2 = 12;
  a0 = 13;
  a1 = 14;
  sp = 0x10000;
  pc = 0x5000;
  memory = record { bytes = λ a. 0; watched = false; notes = [] };
  patch_trap_addresses = (0xA9F4, 0x4000) ∷ [];
}

abbrev pushed_word : Machine
pushed_word = record machine { sp = 0xFFFC; memory = stored 0xFFFC 0x5002 machine.memory }

pushed_lem : push 4 0x5002 machine ≡ ok pushed_word
pushed_lem = push_lem machine 0x5002 (omega arith) (omega arith)

pop-push_example :
    (s : Store) × (pop 4 pushed_word ≡ ok (0x5002, record machine { memory = s }))
    × (s.bytes ≡ pushed_word.memory.bytes)
pop-push_example =
    pop-push machine pushed_word 4 0x5002 (omega arith) (omega arith) (omega arith) pushed_lem

abbrev saved_machine : Machine
saved_machine = saved 0xA01E (pushed 13 machine)

saved_lem : save_registers 0xA01E machine ≡ ok saved_machine
unfolding should_save_a0
saved_lem = save_registers_lem 0xA01E machine (omega arith) (omega arith)

perform_trap_exit-save_registers_example :
    (r : Machine) × (perform_trap_exit saved_machine ≡ ok r)
    × Restores saved_machine r 12 11 14
    × (r.sp ≡ 0x10000)
    × (r.a0 ≡ (if should_save_a0 0xA01E then 13 else saved_machine.a0))
perform_trap_exit-save_registers_example =
    perform_trap_exit-save_registers 0xA01E machine saved_machine saved_machine (omega arith)
      (omega arith) (omega arith) (omega arith) (omega arith) (omega arith) (omega arith) saved_lem
      refl (refl, λ x p q. refl)

-- Two traps that have a name.
abbrev some_names : ℕ → Bool
some_names trap = trap == 0xA9EE || trap == 0xA9F4

get_trap_address-set_trap_address_example :
    (m' : Machine) × (set_trap_address some_names 0xA9EE 0x6000 machine ≡ ok m')
    × (get_trap_address 0xA9F4 m'
        ≡ (if 0xA9EE == 0xA9F4 then 0x6000 else get_trap_address 0xA9F4 machine))
get_trap_address-set_trap_address_example =
    get_trap_address-set_trap_address some_names 0xA9EE 0xA9F4 0x6000 machine refl refl
      (omega arith)

not_patched : find (machine.d0 % 2 ^ 10) machine.patch_trap_addresses ≡ none
unfolding find
not_patched = refl

get_tool_box_trap_address_example :
    internal_dispatch some_names TrapName.get_tool_box_trap_address machine
    ≡ ok (some (record machine { a0 = base_system_trap_address + (machine.d0 % 2 ^ 8) * 2 }))
get_tool_box_trap_address_example =
    get_tool_box_trap_address_gives_system some_names machine not_patched
