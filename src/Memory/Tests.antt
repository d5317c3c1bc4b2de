-- ===== src/Memory/Tests.antt =====
-- The theorems on the memory at small instances.
use cyder.Base.{
  ℕ, ◌+◌, ◌-◌, ◌^◌, ◌≤◌, ◌<◌, ◌≡◌, ◌≢◌, refl, ◌⊎◌, true, false, List, [], ◌∷◌, some, arith, ok,
}
use cyder.Memory.Bytes.{write_bytes, htobe}
use cyder.Memory.Region.{
  Store, MemoryRegion, base_region, check_safe_access, create_sized, write_raw, write_uint,
  read_uint,
}
use cyder.Memory.Region.Safety.{IsWithin, write_raw-confined, check_safe_access_wraps}
use cyder.Memory.Region.Access.{read_uint-write_uint}
use cyder.Memory.Manager.Table.{find, insert, assign}
use cyder.Memory.Manager.Cells.{stored}
use cyder.Memory.Manager.Defs.{
  MemoryManager, HandleMetadata, heap_start, heap_end, initial, new_metadata, allocate,
  allocate_handle, allocate_handle_for_region, get_handle_that_contains, update_handle,
}
use cyder.Memory.Manager.Invariant.{
  IsWellFormed, next_handle, allocated, initial-IsWellFormed, allocated-IsWellFormed,
  allocate_handle_lem, allocate_handle-IsWellFormed, update_handle_lem,
}
use cyder.Memory.Manager.Blocks.{
  IsPacked, allocate_handle-IsPacked, get_handle_that_contains_lem, update_handle_loses_block,
  allocate_past_heap_end,
}
use cyder.Memory.Manager.Copy.{HasBytes, allocate_handle_for_region_lem}

abbrev blank : Store
blank = record { bytes = λ x. 7; watched = false; notes = [] }

abbrev empty : MemoryManager
empty = record { heap_offset = 4096; handle_offset = 0; handles = []; memory = blank }

-- A manager with one handle, of 100 bytes.
abbrev one : MemoryManager
one = allocated 100 "CODE" empty

abbrev block : HandleMetadata
block = record { tag = "CODE"; start = heap_start + 4096; end = heap_start + 4196; size = 100 }

empty-IsWellFormed : IsWellFormed empty
unfolding initial
empty-IsWellFormed = initial-IsWellFormed blank

one_lem : allocate_handle 100 "CODE" empty ≡ ok (heap_start, one)
one_lem = allocate_handle_lem 100 "CODE" empty empty-IsWellFormed (omega arith)

one-IsWellFormed : IsWellFormed one
one-IsWellFormed =
    allocated-IsWellFormed 100 "CODE" empty empty-IsWellFormed (omega arith) (omega arith)

find_one : find heap_start one.handles ≡ some block
unfolding find insert new_metadata
find_one = refl

one-IsPacked : IsPacked one
unfolding insert new_metadata
one-IsPacked = (omega arith, refl, omega arith)

allocate_handle-IsWellFormed_example :
    IsWellFormed one × (heap_start ≡ next_handle empty) × (one ≡ allocated 100 "CODE" empty)
allocate_handle-IsWellFormed_example =
    allocate_handle-IsWellFormed 100 "CODE" empty one heap_start empty-IsWellFormed (omega arith)
      one_lem

allocate_handle-IsPacked_example : IsPacked one × (one.heap_offset ≡ empty.heap_offset + 100)
allocate_handle-IsPacked_example =
    allocate_handle-IsPacked 100 "CODE" empty one heap_start empty-IsWellFormed (omega arith)
      (omega arith) (omega arith) one_lem

get_handle_that_contains_example : get_handle_that_contains (heap_start + 4150) one ≡ heap_start
get_handle_that_contains_example =
    get_handle_that_contains_lem one heap_start (heap_start + 4150) block one-IsPacked find_one
      (omega arith) (omega arith)

-- The handle moved past its block.
abbrev moved : MemoryManager
moved = record one {
  handles = assign heap_start (record block { start = heap_start + 5000; size = 200 }) one.handles;
  memory = stored heap_start (heap_start + 5000) one.memory;
}

moved_lem : update_handle heap_start (heap_start + 5000) 200 one ≡ ok moved
moved_lem = update_handle_lem heap_start (heap_start + 5000) 200 block one one-IsWellFormed find_one

update_handle_loses_block_example : get_handle_that_contains (heap_start + 5100) moved ≢ heap_start
update_handle_loses_block_example =
    update_handle_loses_block one moved heap_start (heap_start + 5000) 200 (heap_start + 5100) block
      one-IsWellFormed find_one (omega arith) moved_lem

allocate_past_heap_end_example :
    (p : ℕ) × (m' : MemoryManager) × (allocate (heap_end - 5000) one ≡ ok (p, m'))
    × (heap_end < p + (heap_end - 5000))
allocate_past_heap_end_example =
    allocate_past_heap_end (heap_end - 5000) one (omega arith) (omega arith)

-- A resource of four bytes.
abbrev four : MemoryRegion
four = record { origin = 0; size = 4; maximum_size = 4; base_offset = 0; is_big_endian = true }

blank-HasBytes : HasBytes four blank 4
blank-HasBytes j h = omega arith

allocate_handle_for_region_example :
    (m' : MemoryManager) × (allocate_handle_for_region four blank "PACK" one
      ≡ ok (next_handle one, m'))
    × IsWellFormed m'
    × (m'.handles ≡ (allocated four.size "PACK" one).handles)
    × ((j : ℕ)
        → j < four.size
        → m'.memory.bytes (heap_start + one.heap_offset + j) ≡ blank.bytes (four.origin + j))
allocate_handle_for_region_example =
    allocate_handle_for_region_lem four blank "PACK" one one-IsWellFormed (omega arith)
      (omega arith) (omega arith) blank-HasBytes (omega arith) (omega arith)

-- The words of a region of eight bytes within an array of sixteen.
abbrev eight : MemoryRegion
eight = record { origin = 4; size = 8; maximum_size = 12; base_offset = 4; is_big_endian = true }

eight-IsWithin : IsWithin 16 eight
eight-IsWithin = record { aligned = refl; ends = refl; fits = omega arith }

eight_lem : create_sized (base_region 16 true) 4 8 ≡ ok eight
unfolding create_sized base_region
eight_lem = refl

abbrev source : List ℕ
source = 1 ∷ 2 ∷ []

abbrev after_raw : Store
after_raw = record { bytes = write_bytes blank.bytes 6 source; watched = false; notes = [] }

after_raw_lem : write_raw eight source 2 2 blank ≡ ok after_raw
unfolding write_raw
after_raw_lem = refl

write_raw-confined_example :
    (eight.base_offset + 2 + 2 ≤ 16)
    × ((9 < eight.base_offset + 2) ⊎ (eight.base_offset + 2 + 2 ≤ 9)
        → after_raw.bytes 9 ≡ blank.bytes 9)
write_raw-confined_example =
    write_raw-confined 16 eight source 2 blank after_raw 9 eight-IsWithin (omega arith)
      after_raw_lem

check_safe_access_wraps_example : check_safe_access eight (2 ^ 64 - 2) 4 ≡ ok tt
check_safe_access_wraps_example =
    check_safe_access_wraps eight 2 4 (omega arith) (omega arith) (omega arith) (omega arith)
      (omega arith)

abbrev after_word : Store
after_word = record {
  bytes = write_bytes blank.bytes 4 (1 ∷ 2 ∷ 3 ∷ 4 ∷ []);
  watched = false;
  notes = [];
}

after_word_lem : write_uint 4 eight 0 0x01020304 blank ≡ ok after_word
unfolding write_uint htobe
after_word_lem = refl

read_uint-write_uint_example :
    (u : Store) × (read_uint 4 eight 0 after_word ≡ ok (0x01020304, u))
    × (u.bytes ≡ after_word.bytes)
read_uint-write_uint_example =
    read_uint-write_uint 4 eight 0 0x01020304 blank after_word (omega arith) after_word_lem
