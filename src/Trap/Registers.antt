-- ===== src/Trap/Registers.antt =====
-- The registers that a system trap saves, and what PerformTrapExit makes of them.
use cyder.Base.{
  ℕ, ◌+◌, ◌-◌, ◌^◌, ◌≤◌, ◌<◌, ◌≡◌, refl, sym, ap, ◌∙◌, if◌then◌else◌, ok, arith, Bool-cases, inl,
  inr,
}
use cyder.Memory.Manager.Defs.{system_memory_size}
use cyder.Memory.Manager.Cells.{cell, cell-stored_self, cell_ext}
use cyder.Trap.Word.{should_save_a0}
use cyder.Trap.Machine.{Machine}
use cyder.Trap.Stack.{ok_inj}
use cyder.Trap.Dispatch.{save_registers, perform_trap_exit}
use cyder.Trap.Saved.{
  bytes-notify, heard, pushed, popped, saved, save_registers_lem, word, restored, exit_with_a0,
  exit_without_a0, HoldsWords, saved-HoldsWords, saved_above,
}

-- What PerformTrapExit gives for the words on the stack.
abbrev pub Restores : Machine → Machine → ℕ → ℕ → ℕ → Type 0
Restores m r w0 w1 w2 =
    (r.d2 ≡ w0) × (r.d1 ≡ w1) × (r.a1 ≡ w2) × (r.d0 ≡ m.d0) × (r.memory.bytes ≡ m.memory.bytes)

restored-Restores :
    (m : Machine) (w0 w1 w2 : ℕ) → HoldsWords m w0 w1 w2 → Restores m (restored m) w0 w1 w2
restored-Restores m w0 w1 w2 h =
    let once = bytes-notify m.memory m.sp in
    let twice = bytes-notify (heard m.sp m.memory) (m.sp + 4) ∙ once in
    (
      h.0,
      ap (λ bytes. cell bytes (m.sp + 4)) once ∙ h.1,
      ap (λ bytes. cell bytes (m.sp + 4 + 4)) twice
          ∙ ap (cell m.memory.bytes) (omega (arith))
          ∙ h.2,
      refl,
      bytes-notify (heard (m.sp + 4) (heard m.sp m.memory)) (m.sp + 4 + 4) ∙ twice,
    )

-- Two machines have the same stack up to an address.
abbrev pub SameStack : Machine → Machine → ℕ → Type 0
SameStack m m' top =
    (m.sp ≡ m'.sp) × ((x : ℕ) → m'.sp ≤ x → x < top → m.memory.bytes x ≡ m'.memory.bytes x)

same_word :
    (m m' : Machine) (top k : ℕ)
    → SameStack m m' top
    → m'.sp + k + 4 ≤ top
    → cell m.memory.bytes (m.sp + k) ≡ cell m'.memory.bytes (m'.sp + k)
same_word m m' top k h l =
    ap (λ sp. cell m.memory.bytes (sp + k)) h.0
    ∙ cell_ext m.memory.bytes m'.memory.bytes (m'.sp + k)
        (λ x p q. h.1 x (omega (arith, p)) (omega (arith, q, l)))

SameStack-HoldsWords :
    (m m' : Machine) (top w0 w1 w2 : ℕ)
    → SameStack m m' top
    → m'.sp + 12 ≤ top
    → HoldsWords m' w0 w1 w2
    → HoldsWords m w0 w1 w2
SameStack-HoldsWords m m' top w0 w1 w2 h l words = (
  ap (cell m.memory.bytes) (omega arith)
      ∙ same_word m m' top 0 h (omega (arith, l))
      ∙ ap (cell m'.memory.bytes) (omega arith)
      ∙ words.0,
  same_word m m' top 4 h (omega (arith, l)) ∙ words.1,
  same_word m m' top 8 h (omega (arith, l)) ∙ words.2,
)

-- A system trap with a 16-bit opcode saves registers that fit 32 bits on a stack that has at
-- least 16 bytes and lies within the memory. After any handler that leaves the opcode in D1,
-- the stack pointer and the saved bytes, PerformTrapExit succeeds and gives D2, D1, A1 and the
-- stack pointer back, and A0 if the opcode asks for it; otherwise A0, and always D0 and the
-- bytes of the memory, are as the handler left them.
pub perform_trap_exit-save_registers :
    (trap_op : ℕ) (m m' m'' : Machine)
    → trap_op < 2 ^ 16
    → 16 ≤ m.sp
    → m.sp ≤ system_memory_size
    → m.d1 < 2 ^ 32
    → m.d2 < 2 ^ 32
    → m.a1 < 2 ^ 32
    → m.a0 < 2 ^ 32
    → save_registers trap_op m ≡ ok m'
    → m''.d1 ≡ trap_op
    → SameStack m'' m' m.sp
    → (r : Machine) × (perform_trap_exit m'' ≡ ok r)
      × Restores m'' r m.d2 m.d1 m.a1
      × (r.sp ≡ m.sp)
      × (r.a0 ≡ (if should_save_a0 trap_op then m.a0 else m''.a0))
perform_trap_exit-save_registers trap_op m m' m'' k h l l1 l2 l3 l0 e d same =
    elim (Bool-cases (should_save_a0 trap_op)) [
      | inl a ↦
          let m0 = pushed m.a0 m in
          let e' : saved trap_op m0 ≡ m' =
            ok_inj (rw a at (sym (save_registers_lem trap_op m h l) ∙ e)) in
          let same' : SameStack m'' (saved trap_op m0) m.sp = rw (sym e') at same in
          let words =
            SameStack-HoldsWords m'' (saved trap_op m0) m.sp m.d2 m.d1 m.a1 same' (omega (arith, h))
              (saved-HoldsWords trap_op m0 (omega (arith, h)) l1 l2 l3) in
          let back = restored-Restores m'' _ _ _ words in
          (
            record (popped (restored m'')) { a0 = word (restored m'') },
            exit_with_a0 m'' (omega (arith, d, k)) (omega (arith, same'.0, h, l))
                (ap should_save_a0 d ∙ a),
            (
              back.0,
              back.1,
              back.2,
              back.3,
              bytes-notify (restored m'').memory (restored m'').sp ∙ back.4,
            ),
            omega (arith, same'.0, h),
            rw a (
                ap (λ bytes. cell bytes (m''.sp + 4 + 4 + 4)) back.4
                ∙ ap (cell m''.memory.bytes) (omega arith)
                ∙ same_word m'' (saved trap_op m0) m.sp 12 same' (omega (arith, h))
                ∙ ap (cell (saved trap_op m0).memory.bytes) (omega (arith, h))
                ∙ saved_above trap_op m0 (m.sp - 4) (omega (arith, h)) (omega arith)
                ∙ cell-stored_self (m.sp - 4) m.a0 m.memory l0),
          )
      | inr a ↦
          let e' : saved trap_op m ≡ m' =
            ok_inj (rw a at (sym (save_registers_lem trap_op m h l) ∙ e)) in
          let same' : SameStack m'' (saved trap_op m) m.sp = rw (sym e') at same in
          let words =
            SameStack-HoldsWords m'' (saved trap_op m) m.sp m.d2 m.d1 m.a1 same' (omega (arith, h))
              (saved-HoldsWords trap_op m (omega (arith, h)) l1 l2 l3) in
          (
            restored m'',
            exit_without_a0 m'' (omega (arith, d, k)) (omega (arith, same'.0, h, l))
                (ap should_save_a0 d ∙ a),
            restored-Restores m'' _ _ _ words,
            omega (arith, same'.0, h),
            rw a refl,
          )
    ]
