-- ===== src/Memory/Region/Access.antt =====
-- Reads after writes, and reads through a sub-region.
use cyder.Base.{ℕ, ◌+◌, ◌^◌, ◌<◌, ◌≡◌, ap, ◌∙◌, Bool, true, false, List, arith, ok, if◌then◌else◌}
use cyder.Memory.Bytes.{read_bytes, write_bytes, host_bytes, host_value, htobe, betoh}
use cyder.Memory.Bytes.Laws.{
  read_bytes-write_bytes, length-host_bytes, host_value-host_bytes, betoh-htobe, htobe_lt,
}
use cyder.Memory.Region.{
  Store, MemoryRegion, check_safe_access, create_sized, read_raw, write_raw, read_uint, write_uint,
  notify, on_read, size_t,
}
use cyder.Memory.Region.Safety.{IsWithin}

-- What a call that returns has done.
pub write_raw_lem :
    (r : MemoryRegion) (src : List ℕ) (offset n : ℕ) (s t : Store)
    → write_raw r src offset n s ≡ ok t
    → (check_safe_access r offset n ≡ ok tt)
      × (t.bytes ≡ write_bytes s.bytes (r.origin + offset) src)
unfolding write_raw
write_raw_lem r src offset n s t e = ground arith

pub read_raw_lem :
    (r : MemoryRegion) (offset n : ℕ) (s : Store)
    → check_safe_access r offset n ≡ ok tt
    → (u : Store) × (read_raw r offset n s ≡ ok (read_bytes s.bytes (r.origin + offset) n, u))
      × (u.bytes ≡ s.bytes)
unfolding read_raw
read_raw_lem r offset n s e =
    (notify (on_read (size_t (r.base_offset + offset)) n) s, ground arith, ground arith)

-- The host's value of the bytes that were written for v.
host_value_of :
    (w : ℕ) (big : Bool) (v : ℕ)
    → v < 256 ^ w
    → (if big
        then betoh w (host_value (host_bytes w (if big then htobe w v else v)))
        else host_value (host_bytes w (if big then htobe w v else v)))
      ≡ v
host_value_of w true v h =
    ap (betoh w) (host_value-host_bytes w (htobe w v) (htobe_lt w v)) ∙ betoh-htobe w v h
host_value_of w false v h = host_value-host_bytes w v h

-- Reading in a sub-region of a region within an array, for ends that fit 64 bits, is reading in
-- the parent that much further on: the same bytes, or the same error, and the same note to the
-- watcher.
read_raw-create_sized :
    (limit : ℕ) (r t : MemoryRegion) (offset size k n : ℕ) (s : Store)
    → IsWithin limit r
    → offset + size < 2 ^ 64
    → offset + k + n < 2 ^ 64
    → create_sized r offset size ≡ ok t
    → read_raw t k n s ≡ read_raw r (offset + k) n s
unfolding create_sized read_raw
read_raw-create_sized limit r t offset size k n s w h l e = ground arith

-- When a write of a w-byte integer that fits w bytes succeeds, a read of w bytes at the same
-- offset of the region succeeds and gives the integer, in either byte order, and changes no
-- byte.
pub read_uint-write_uint :
    (w : ℕ) (r : MemoryRegion) (offset v : ℕ) (s t : Store)
    → v < 256 ^ w
    → write_uint w r offset v s ≡ ok t
    → (u : Store) × (read_uint w r offset t ≡ ok (v, u)) × (u.bytes ≡ t.bytes)
unfolding read_uint write_uint
read_uint-write_uint w r offset v s t h e = (
  (read_raw_lem r offset w t done.0).0,
  ground
      (arith, read_raw_lem r offset w t done.0, done.1, got, host_value_of w r.is_big_endian v h),
  (read_raw_lem r offset w t done.0).2,
)
  where
    src : List ℕ
    src = host_bytes w (if r.is_big_endian then htobe w v else v)

    done :
        (check_safe_access r offset w ≡ ok tt)
        × (t.bytes ≡ write_bytes s.bytes (r.origin + offset) src)
    done = write_raw_lem r src offset w s t e

    got : read_bytes t.bytes (r.origin + offset) w ≡ src
    got = rw (done.1) (
        rw (length-host_bytes w (if r.is_big_endian then htobe w v else v)) at
          (read_bytes-write_bytes s.bytes (r.origin + offset) src))
