-- ===== src/Trap/Machine.antt =====
-- The emulated processor's registers, the memory, and the patches that TrapManager keeps; and
-- emu/trap/stack_helpers.h, the stack in that memory. A width is the size of the type in bytes.
use cyder.Base.{
  ℕ, ◌+◌, ◌-◌, ◌/◌, ◌%◌, ◌^◌, Bool, List, ◌==◌, if◌then◌else◌, Status, ok, ◌>>=◌, must,
}
use cyder.Memory.Region.{Store, read_uint, write_uint}
use cyder.Memory.Manager.Defs.{system_memory, u32}

pub record Machine : Type 0 where
  pub d0 : ℕ
  pub d1 : ℕ
  pub d2 : ℕ
  pub a0 : ℕ
  pub a1 : ℕ
  pub sp : ℕ
  pub pc : ℕ
  pub memory : Store
  pub patch_trap_addresses : List (ℕ × ℕ)

unfoldable pub pop : ℕ → Machine → Status (ℕ × Machine)
unfolding must
pop width m = do
  got ← must (read_uint width system_memory m.sp m.memory)
  ok (got.0, record m { sp = u32 (m.sp + width); memory = got.1 })

-- A Boolean is a byte in a word: the bit 0x0100.
unfoldable pub pop_bool : Machine → Status (Bool × Machine)
unfolding pop
pop_bool m = do got ← pop 2 m; ok ((got.0 / 0x0100) % 2 == 1, got.1)

unfoldable pub peek : ℕ → ℕ → Machine → Status (ℕ × Machine)
peek width offset m = do
  got ← read_uint width system_memory (m.sp + offset) m.memory
  ok (got.0, record m { memory = got.1 })

unfoldable pub push : ℕ → ℕ → Machine → Status Machine
unfolding must
push width value m = do
  let new_stack_ptr = u32 (m.sp + 2 ^ 32 - width)
  s ← must (write_uint width system_memory new_stack_ptr value m.memory)
  ok (record m { sp = new_stack_ptr; memory = s })

unfoldable pub push_bool : Bool → Machine → Status Machine
unfolding push
push_bool value = push 2 (if value then 0x0100 else 0x0000)

-- TrapReturn of an integer and of a Boolean: the result goes to the top of the stack.
unfoldable pub trap_return : ℕ → ℕ → Machine → Status Machine
trap_return width value m = do
  s ← write_uint width system_memory m.sp value m.memory
  ok (record m { memory = s })

unfoldable pub trap_return_bool : Bool → Machine → Status Machine
unfolding trap_return
trap_return_bool value = trap_return 2 (if value then 0x0100 else 0x0000)
