-- ===== src/Trap/Word.antt =====
-- emu/trap/trap_helpers.h: the fields of a trap's opcode, a uint16_t.
use cyder.Base.{ℕ, ◌/◌, ◌%◌, ◌^◌, Bool, not, ◌&&◌, ◌==◌, if◌then◌else◌, Status, ok, check, ◌>>◌}

unfoldable pub is_toolbox : ℕ → Bool
is_toolbox trap = (trap / 2 ^ 11) % 2 == 1

unfoldable pub is_system : ℕ → Bool
unfolding is_toolbox
is_system trap = not (is_toolbox trap)

-- The lower 10 bits, and the lower 8 bits.
unfoldable pub extract_toolbox_index : ℕ → ℕ
extract_toolbox_index trap = trap % 2 ^ 10

unfoldable pub extract_system_index : ℕ → ℕ
extract_system_index trap = trap % 2 ^ 8

unfoldable pub extract_index : ℕ → ℕ
unfolding is_toolbox extract_toolbox_index extract_system_index
extract_index trap =
    if is_toolbox trap then extract_toolbox_index trap else extract_system_index trap

unfoldable pub is_auto_pop_set : ℕ → Bool
unfolding is_toolbox
is_auto_pop_set trap = is_toolbox trap && ((trap / 2 ^ 10) % 2 == 1)

unfoldable pub extract_flags : ℕ → Status ℕ
unfolding is_system check
extract_flags trap = check (is_system trap) >> ok ((trap / 2 ^ 9) % 4)

unfoldable pub should_save_a0 : ℕ → Bool
unfolding is_system
should_save_a0 trap = is_system trap && not ((trap / 2 ^ 8) % 2 == 1)
