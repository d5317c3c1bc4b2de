-- ===== src/Trap/Saved.antt =====
-- The words that a system trap pushes, and the words that PerformTrapExit pops.
use cyder.Base.{
  ℕ, ◌+◌, ◌-◌, ◌%◌, ◌^◌, ◌≤◌, ◌<◌, ◌≡◌, refl, ap, ◌∙◌, true, false, if◌then◌else◌, ok, arith,
  Bool-cases, inl, inr,
}
use cyder.Memory.Region.{Store, notify, on_read, size_t}
use cyder.Memory.Manager.Defs.{system_memory_size}
use cyder.Memory.Manager.Cells.{cell, stored, cell-stored_self, cell-stored_ne}
use cyder.Trap.Word.{should_save_a0}
use cyder.Trap.Machine.{Machine}
use cyder.Trap.Stack.{push_lem, pop_lem}
use cyder.Trap.Dispatch.{save_registers, perform_trap_exit}

pub bytes-notify : (s : Store) (a : ℕ) → (notify (on_read (size_t (0 + a)) 4) s).bytes ≡ s.bytes
unfolding notify
bytes-notify s a = ground arith

-- The memory after a read of a word.
abbrev pub heard : ℕ → Store → Store
heard a s = notify (on_read (size_t (0 + a)) 4) s

abbrev pub pushed : ℕ → Machine → Machine
pushed v m = record m { sp = m.sp - 4; memory = stored (m.sp - 4) v m.memory }

abbrev pub popped : Machine → Machine
popped m = record m { sp = m.sp + 4; memory = heard m.sp m.memory }

abbrev pub saved : ℕ → Machine → Machine
saved trap_op m = record (pushed m.d2 (pushed m.d1 (pushed m.a1 m))) { d1 = trap_op }

pub save_registers_lem :
    (trap_op : ℕ) (m : Machine)
    → 16 ≤ m.sp
    → m.sp ≤ system_memory_size
    → save_registers trap_op m
      ≡ ok (saved trap_op (if should_save_a0 trap_op then pushed m.a0 m else m))
unfolding save_registers
save_registers_lem trap_op m h l = elim (Bool-cases (should_save_a0 trap_op)) [
  | inl a ↦
      let m0 = pushed m.a0 m in
      rw
        (
          a,
          push_lem m m.a0 (omega (arith, h)) l,
          push_lem m0 m.a1 (omega (arith, h)) (omega (arith, l)),
          push_lem (pushed m.a1 m0) m.d1 (omega (arith, h)) (omega (arith, l)),
          push_lem (pushed m.d1 (pushed m.a1 m0)) m.d2 (omega (arith, h)) (omega (arith, l)),
        )
        refl
  | inr a ↦
      rw
        (
          a,
          push_lem m m.a1 (omega (arith, h)) l,
          push_lem (pushed m.a1 m) m.d1 (omega (arith, h)) (omega (arith, l)),
          push_lem (pushed m.d1 (pushed m.a1 m)) m.d2 (omega (arith, h)) (omega (arith, l)),
        )
        refl
]

abbrev pub word : Machine → ℕ
word m = cell m.memory.bytes m.sp

-- The machine after PerformTrapExit has restored D2, D1 and A1.
abbrev pub restored : Machine → Machine
restored m =
    let m2 = record (popped m) { d2 = word m } in
    let m1 = record (popped m2) { d1 = word (popped m) } in
    record (popped m1) { a1 = word (popped m2) }

small : (n : ℕ) → n < 2 ^ 16 → n % 2 ^ 16 ≡ n
small n h = omega (arith, h)

pub exit_with_a0 :
    (m : Machine)
    → m.d1 < 2 ^ 16
    → m.sp + 16 ≤ system_memory_size
    → should_save_a0 m.d1 ≡ true
    → perform_trap_exit m ≡ ok (record (popped (restored m)) { a0 = word (restored m) })
unfolding perform_trap_exit
exit_with_a0 m k h a =
    let m2 : Machine = record (popped m) { d2 = word m } in
    let m1 : Machine = record (popped m2) { d1 = word (popped m) } in
    rw
      (
        small m.d1 k,
        a,
        pop_lem m (omega (arith, h)),
        pop_lem m2 (omega (arith, h)),
        pop_lem m1 (omega (arith, h)),
        pop_lem (restored m) (omega (arith, h)),
      )
      refl

pub exit_without_a0 :
    (m : Machine)
    → m.d1 < 2 ^ 16
    → m.sp + 12 ≤ system_memory_size
    → should_save_a0 m.d1 ≡ false
    → perform_trap_exit m ≡ ok (restored m)
unfolding perform_trap_exit
exit_without_a0 m k h a =
    let m2 : Machine = record (popped m) { d2 = word m } in
    let m1 : Machine = record (popped m2) { d1 = word (popped m) } in
    rw
      (
        small m.d1 k,
        a,
        pop_lem m (omega (arith, h)),
        pop_lem m2 (omega (arith, h)),
        pop_lem m1 (omega (arith, h)),
      )
      refl

-- The words on the stack from the pointer of m on.
abbrev pub HoldsWords : Machine → ℕ → ℕ → ℕ → Type 0
HoldsWords m w0 w1 w2 =
    (cell m.memory.bytes m.sp ≡ w0)
    × (cell m.memory.bytes (m.sp + 4) ≡ w1)
    × (cell m.memory.bytes (m.sp + 8) ≡ w2)

pub saved-HoldsWords :
    (trap_op : ℕ) (m : Machine)
    → 12 ≤ m.sp
    → m.d1 < 2 ^ 32
    → m.d2 < 2 ^ 32
    → m.a1 < 2 ^ 32
    → HoldsWords (saved trap_op m) m.d2 m.d1 m.a1
saved-HoldsWords trap_op m h l1 l2 l3 =
    let s1 = stored (m.sp - 4) m.a1 m.memory in
    let s2 = stored (m.sp - 4 - 4) m.d1 s1 in
    let s3 = stored (m.sp - 4 - 4 - 4) m.d2 s2 in
    (
      cell-stored_self (m.sp - 4 - 4 - 4) m.d2 s2 l2,
      ap (cell s3.bytes) (omega (arith, h))
          ∙ cell-stored_ne (m.sp - 4 - 4 - 4) (m.sp - 4 - 4) m.d2 s2 (inr (omega (arith, h)))
          ∙ cell-stored_self (m.sp - 4 - 4) m.d1 s1 l1,
      ap (cell s3.bytes) (omega (arith, h))
          ∙ cell-stored_ne (m.sp - 4 - 4 - 4) (m.sp - 4) m.d2 s2 (inr (omega (arith, h)))
          ∙ cell-stored_ne (m.sp - 4 - 4) (m.sp - 4) m.d1 s1 (inr (omega (arith, h)))
          ∙ cell-stored_self (m.sp - 4) m.a1 m.memory l3,
    )

pub saved_above :
    (trap_op : ℕ) (m : Machine) (a : ℕ)
    → 12 ≤ m.sp
    → m.sp ≤ a
    → cell (saved trap_op m).memory.bytes a ≡ cell m.memory.bytes a
saved_above trap_op m a h l =
    let s1 = stored (m.sp - 4) m.a1 m.memory in
    let s2 = stored (m.sp - 4 - 4) m.d1 s1 in
    cell-stored_ne (m.sp - 4 - 4 - 4) a m.d2 s2 (inr (omega (arith, h, l)))
    ∙ cell-stored_ne (m.sp - 4 - 4) a m.d1 s1 (inr (omega (arith, h, l)))
    ∙ cell-stored_ne (m.sp - 4) a m.a1 m.memory (inr (omega (arith, h, l)))
