-- ===== src/Memory/Region.antt =====
-- core/memory_region.{h,cc}. A `Store` is one array with the watcher that all regions of it share;
-- a region is a window on it. What a watcher is told is the list `notes`, the newest first. Names
-- of regions and the warnings about a preferred size change no result and are left out.
pub mod Safety
pub mod Access
use cyder.Base.{
  ℕ, ◌+◌, ◌-◌, ◌%◌, ◌^◌, ◌≡◌, Bool, true, List, [], ◌∷◌, ltb, ◌==◌, if◌then◌else◌, Status, ok, err,
  out_of_range, ◌>>=◌, ◌>>◌,
}
use cyder.Memory.Bytes.{read_bytes, write_bytes, host_bytes, host_value, htobe, betoh}

-- The calls of MemoryWatcher, each with its offset and size.
pub data Note : Type 0 where
  on_read on_write : ℕ → ℕ → Note

pub record Store : Type 0 where
  pub bytes : ℕ → ℕ
  pub watched : Bool
  pub notes : List Note

-- `origin` is the position of `data_` in the array.
pub record MemoryRegion : Type 0 where
  pub origin : ℕ
  pub size : ℕ
  pub maximum_size : ℕ
  pub base_offset : ℕ
  pub is_big_endian : Bool

-- Arithmetic of size_t.
abbrev pub size_t : ℕ → ℕ
size_t n = n % 2 ^ 64

-- The public constructor: the whole of an array.
unfoldable pub base_region : ℕ → Bool → MemoryRegion
base_region size big = record {
  origin = 0;
  size = size;
  maximum_size = size;
  base_offset = 0;
  is_big_endian = big;
}

unfoldable pub set_watcher : Bool → Store → Store
set_watcher on s = record s { watched = on }

unfoldable pub check_safe_access : MemoryRegion → ℕ → ℕ → Status (Unit {0})
check_safe_access r offset size =
    if ltb r.maximum_size (size_t (offset + size)) then err out_of_range else ok tt

-- Create(name, offset, size) and Create(offset).
unfoldable pub create_sized : MemoryRegion → ℕ → ℕ → Status MemoryRegion
unfolding check_safe_access
create_sized r offset size = do
  check_safe_access r offset size
  ok (record {
    origin = r.origin + offset;
    size = size;
    maximum_size = size_t (r.maximum_size + 2 ^ 64 - offset);
    base_offset = size_t (r.base_offset + offset);
    is_big_endian = r.is_big_endian;
  })

unfoldable pub create : MemoryRegion → ℕ → Status MemoryRegion
unfolding create_sized
create r offset = create_sized r offset (if ltb offset r.size then r.size - offset else 0)

-- What the watcher hears, where there is one.
unfoldable pub notify : Note → Store → Store
notify n s = if s.watched then record s { notes = n ∷ s.notes } else s

unfoldable pub read_raw : MemoryRegion → ℕ → ℕ → Store → Status (List ℕ × Store)
unfolding check_safe_access notify
read_raw r offset length s = do
  check_safe_access r offset length
  ok (
    read_bytes s.bytes (r.origin + offset) length,
    notify (on_read (size_t (r.base_offset + offset)) length) s,
  )

unfoldable pub write_raw : MemoryRegion → List ℕ → ℕ → ℕ → Store → Status Store
unfolding check_safe_access notify
write_raw r src offset length s = do
  check_safe_access r offset length
  ok (
      notify (on_write (size_t (r.base_offset + offset)) length)
        (record s { bytes = write_bytes s.bytes (r.origin + offset) src }))

-- Read<Type> and Write<Type> at an unsigned integer of w bytes.
unfoldable pub read_uint : ℕ → MemoryRegion → ℕ → Store → Status (ℕ × Store)
unfolding read_raw
read_uint w r offset s = do
  got ← read_raw r offset w s
  let value = host_value got.0
  ok (if r.is_big_endian then betoh w value else value, got.1)

unfoldable pub write_uint : ℕ → MemoryRegion → ℕ → ℕ → Store → Status Store
unfolding write_raw
write_uint w r offset v s =
    write_raw r (host_bytes w (if r.is_big_endian then htobe w v else v)) offset w s

-- Read<bool> and Write<bool>: one byte, of which the lowest bit counts.
unfoldable pub read_bool : MemoryRegion → ℕ → Store → Status (Bool × Store)
unfolding read_raw
read_bool r offset s = do got ← read_raw r offset 1 s; ok (host_value got.0 % 2 == 1, got.1)

unfoldable pub write_bool : MemoryRegion → ℕ → Bool → Store → Status Store
unfolding write_raw
write_bool r offset b s = write_raw r ((if b then 1 else 0) ∷ []) offset 1 s
