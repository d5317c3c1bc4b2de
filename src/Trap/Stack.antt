-- ===== src/Trap/Stack.antt =====
-- Pushes and pops on the stack.
use cyder.Base.{
  ℕ, ◌+◌, ◌-◌, ◌^◌, ◌≤◌, ◌<◌, ◌≡◌, refl, sym, ap, ◌∙◌, Status, ok, err, crash, ◌>>=◌, must, arith,
}
use cyder.Memory.Region.{Store, read_uint, write_uint, notify, on_read, size_t}
use cyder.Memory.Region.Access.{read_uint-write_uint}
use cyder.Memory.Manager.Defs.{system_memory, system_memory_size, u32}
use cyder.Memory.Manager.Cells.{cell, stored}
use cyder.Trap.Machine.{Machine, push, pop}

-- A push of a word, within the memory.
pub push_lem :
    (m : Machine) (v : ℕ)
    → 4 ≤ m.sp
    → m.sp ≤ system_memory_size
    → push 4 v m ≡ ok (record m { sp = m.sp - 4; memory = stored (m.sp - 4) v m.memory })
unfolding push write_uint system_memory stored
push_lem m v h l = ground arith

-- A pop of a word, within the memory.
pub pop_lem :
    (m : Machine)
    → m.sp + 4 ≤ system_memory_size
    → pop 4 m
      ≡ ok (
        cell m.memory.bytes m.sp,
        record m { sp = m.sp + 4; memory = notify (on_read (size_t (0 + m.sp)) 4) m.memory },
      )
unfolding pop read_uint system_memory cell
pop_lem m h = ground arith

must_ok :
    {A B : Type 0} (s : Status A) (f : A → Status B) (b : B)
    → must s >>= f ≡ ok b
    → (a : A) × (s ≡ ok a) × (f a ≡ ok b)
unfolding must
must_ok (ok a) f b e = (a, refl, e)
must_ok (err c) f b e = ground (arith, e)
must_ok crash f b e = ground (arith, e)

pub ok_inj : {A : Type 0} {a b : A} → ok a ≡ ok b → a ≡ b
ok_inj {a = a} {b = b} e = ground (arith, e)

sp_sub : (sp width : ℕ) → width ≤ sp → sp < 2 ^ 32 → u32 (sp + 2 ^ 32 - width) ≡ sp - width
sp_sub sp width h l = ground arith

sp_back : (sp width : ℕ) → width ≤ sp → sp < 2 ^ 32 → u32 (sp - width + width) ≡ sp
sp_back sp width h l = ground arith

push_inv :
    (m m' : Machine) (width v : ℕ)
    → width ≤ m.sp
    → m.sp < 2 ^ 32
    → push width v m ≡ ok m'
    → (s : Store) × (write_uint width system_memory (m.sp - width) v m.memory ≡ ok s)
      × (m' ≡ record m { sp = m.sp - width; memory = s })
unfolding push
push_inv m m' width v h l e =
    let written = must_ok (write_uint width system_memory _ v m.memory) _ m' e in
    (
      written.0,
      rw (sp_sub m.sp width h l) at written.1,
      sym (ok_inj (rw (sp_sub m.sp width h l) at written.2)),
    )

-- A value of a width that the stack pointer leaves room for, and that fits that width, is
-- popped again after it was pushed; the registers are then as before the push, and the pop
-- changes no byte of the memory.
pub pop-push :
    (m m' : Machine) (width v : ℕ)
    → width ≤ m.sp
    → m.sp < 2 ^ 32
    → v < 256 ^ width
    → push width v m ≡ ok m'
    → (s : Store) × (pop width m' ≡ ok (v, record m { memory = s })) × (s.bytes ≡ m'.memory.bytes)
unfolding pop
pop-push m m' width v h l k e =
    let pushed = push_inv m m' width v h l e in
    let read =
      read_uint-write_uint width system_memory (m.sp - width) v m.memory pushed.0 k pushed.1 in
    (
      read.0,
      rw pushed.2 (rw (read.1, sp_back m.sp width h l) refl),
      read.2 ∙ ap (λ t. t.memory.bytes) (sym pushed.2),
    )
