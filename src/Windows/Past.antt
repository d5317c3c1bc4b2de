-- ===== src/Windows/Past.antt =====
-- What calls of the window manager that succeed have come past: a CHECK, an allocation, a region,
-- a record that is read or written.
use cyder.Base.{
  ℕ, suc, ◌+◌, ◌==◌, ◌&&◌, not, ltb, leb, ◌≡◌, Bool, true, false, Bool-cases, inl, inr, Status, ok,
  check, ◌>>=◌, ◌>>◌, crash≢ok,
}
use cyder.Memory.Region.{size_t}
use cyder.Memory.Manager.Defs.{system_memory_size, heap_end}
use cyder.Graphics.Region.{Region}
use cyder.Windows.Defs.{
  record_size, region_size, read_region, allocate_handle_number, WindowRecord, WindowManager,
  bool_byte, store, read_record, write_record, allocate_handle_to_region,
}

-- The state after a region's handle is allocated.
abbrev pub grown : Region → WindowManager → WindowManager
grown region m = record m {
  regions = store m.next_handle region m.regions;
  next_handle = suc m.next_handle;
  heap_offset = size_t (m.heap_offset + region_size region);
}

pub past_check : {A : Type 0} (b : Bool) (s : Status A) (a : A) → (check b >> s) ≡ ok a → s ≡ ok a
unfolding check
past_check true s a h = h
past_check false s a h = absurd (crash≢ok h)

pub past_allocation :
    {B : Type 0} (region : Region) (m : WindowManager) (next : ℕ × WindowManager → Status B) (b : B)
    → (allocate_handle_to_region region m >>= next) ≡ ok b
    → next (m.next_handle, grown region m) ≡ ok b
unfolding allocate_handle_to_region allocate_handle_number check
past_allocation region m next b h =
    elim (Bool-cases
      (ltb (size_t (m.heap_offset + region_size region)) heap_end && leb m.next_handle 1024)) [
        | inl room ↦ rw room at h
        | inr full ↦ absurd (crash≢ok (rw full at h))
      ]

pub past_region :
    {B : Type 0} (handle : ℕ) (m : WindowManager) (next : Region → Status B) (b : B)
    → (read_region handle m >>= next) ≡ ok b
    → next (m.regions handle) ≡ ok b
unfolding read_region check
past_region handle m next b h = elim (Bool-cases (not (handle == 0) && ltb handle m.next_handle)) [
  | inl live ↦ rw live at h
  | inr dead ↦ absurd (crash≢ok (rw dead at h))
]

pub past_read :
    {B : Type 0} (ptr : ℕ) (m : WindowManager) (next : WindowRecord → Status B) (b : B)
    → (read_record ptr m >>= next) ≡ ok b
    → next (bool_byte (m.records ptr)) ≡ ok b
unfolding read_record check
past_read ptr m next b h = elim (Bool-cases (leb (ptr + record_size) system_memory_size)) [
  | inl inside ↦ rw inside at h
  | inr outside ↦ absurd (crash≢ok (rw outside at h))
]

pub past_write :
    {B : Type 0} (ptr : ℕ) (w : WindowRecord) (m : WindowManager) (next : WindowManager → Status B)
    (b : B)
    → (write_record ptr w m >>= next) ≡ ok b
    → next (record m { records = store ptr w m.records }) ≡ ok b
unfolding write_record check
past_write ptr w m next b h = elim (Bool-cases (leb (ptr + record_size) system_memory_size)) [
  | inl inside ↦ rw inside at h
  | inr outside ↦ absurd (crash≢ok (rw outside at h))
]
