-- ===== src/Memory/Region/Safety.antt =====
-- The bounds of regions and of the accesses that they admit.
use cyder.Base.{
  ℕ, ◌+◌, ◌-◌, ◌^◌, ◌≤◌, ◌<◌, ◌≡◌, ◌⊎◌, Bool, List, arith, length, ok, err, out_of_range,
}
use cyder.Memory.Bytes.Laws.{write_bytes_outside}
use cyder.Memory.Region.{
  Store, MemoryRegion, base_region, check_safe_access, create_sized, write_raw,
}

-- A region of an array of `limit` bytes: its window ends where the array ends.
pub record IsWithin (limit : ℕ) (r : MemoryRegion) : Type 0 where
  pub aligned : r.origin ≡ r.base_offset
  pub ends : r.base_offset + r.maximum_size ≡ limit
  pub fits : limit < 2 ^ 64

pub base_region-IsWithin :
    (size : ℕ) (big : Bool) → size < 2 ^ 64 → IsWithin size (base_region size big)
unfolding base_region
base_region-IsWithin size big h = omega arith

-- A sub-region that Create makes of a region within an array, with an end that fits 64 bits, is
-- itself within the array, begins that offset after its parent, has the size asked for, and
-- ends within the array.
create_sized-IsWithin :
    (limit : ℕ) (r t : MemoryRegion) (offset size : ℕ)
    → IsWithin limit r
    → offset + size < 2 ^ 64
    → create_sized r offset size ≡ ok t
    → IsWithin limit t
      × (t.base_offset ≡ r.base_offset + offset)
      × (t.size ≡ size)
      × (t.base_offset + size ≤ limit)
unfolding create_sized
create_sized-IsWithin limit r t offset size w h e = ground arith

-- A write through a region within an array, with an end that fits 64 bits, lies within the
-- array if it succeeds, and changes no byte outside its range.
pub write_raw-confined :
    (limit : ℕ) (r : MemoryRegion) (src : List ℕ) (offset : ℕ) (s t : Store) (x : ℕ)
    → IsWithin limit r
    → offset + length src < 2 ^ 64
    → write_raw r src offset (length src) s ≡ ok t
    → (r.base_offset + offset + length src ≤ limit)
      × ((x < r.base_offset + offset) ⊎ (r.base_offset + offset + length src ≤ x)
          → t.bytes x ≡ s.bytes x)
unfolding write_raw
write_raw-confined limit r src offset s t x w h e =
    ground (arith, write_bytes_outside s.bytes (r.origin + offset) src x)

-- For a region within an array and an access whose end fits 64 bits, the access is admitted
-- when it ends within the array, and refused with an out-of-range error when it would end past
-- it.
check_safe_access-refuses :
    (limit : ℕ) (r : MemoryRegion) (offset size : ℕ)
    → IsWithin limit r
    → offset + size < 2 ^ 64
    → (r.base_offset + offset + size ≤ limit → check_safe_access r offset size ≡ ok tt)
      × (limit < r.base_offset + offset + size → check_safe_access r offset size ≡ err out_of_range)
unfolding check_safe_access
check_safe_access-refuses limit r offset size w h = (λ p. ground arith, λ p. ground arith)

-- An offset that lies some bytes below 2 ^ 64 makes the sum in CheckSafeAccess wrap round: an
-- access of at least so many bytes, of which the rest fits the region, is admitted though it
-- begins before the region.
pub check_safe_access_wraps :
    (r : MemoryRegion) (before size : ℕ)
    → 0 < before
    → before < 2 ^ 64
    → before ≤ size
    → size ≤ r.maximum_size + before
    → r.maximum_size + before < 2 ^ 64
    → check_safe_access r (2 ^ 64 - before) size ≡ ok tt
unfolding check_safe_access
check_safe_access_wraps r before size p b l h m = ground arith
