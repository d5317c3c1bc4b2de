-- ===== src/Memory/Reader.antt =====
-- core/memory_reader.{h,cc}: reading a region in sequence, from an offset that moves. Each read
-- gives the store back, in which a watcher may have heard it.
pub mod Sequence
use cyder.Base.{
  ℕ, zero, suc, ◌+◌, ◌*◌, ◌/◌, ◌%◌, ◌^◌, ◌≡◌, Bool, not, List, [], ◌∷◌, Option, none, some, ltb,
  ◌==◌, if◌then◌else◌, Status, ok, err, failed_precondition, ◌>>=◌,
}
use cyder.Memory.Bytes.{read_bytes}
use cyder.Memory.Region.{Store, MemoryRegion, size_t, read_uint, create_sized}

pub record MemoryReader : Type 0 where
  pub region : MemoryRegion
  pub offset : ℕ

-- Next and Peek of an unsigned integer of w bytes.
unfoldable pub next : ℕ → MemoryReader → Store → Status (ℕ × MemoryReader × Store)
unfolding read_uint
next w reader s = do
  got ← read_uint w reader.region reader.offset s
  ok (got.0, record reader { offset = size_t (reader.offset + w) }, got.1)

unfoldable pub peek : ℕ → MemoryReader → Store → Status (ℕ × Store)
unfolding read_uint
peek w reader s = read_uint w reader.region reader.offset s

-- NextString: the characters are read through a raw pointer, with no check of the region's end.
unfoldable pub next_string :
    Option ℕ → MemoryReader → Store → Status (List ℕ × MemoryReader × Store)
unfolding next
next_string none reader s = do
  got ← next 1 reader s
  let after = got.1
  ok (
    read_bytes got.2.bytes (after.region.origin + after.offset) got.0,
    record after { offset = size_t (after.offset + got.0) },
    got.2,
  )
next_string (some fixed_size) reader s = do
  got ← next 1 reader s
  let after = got.1
  (if ltb fixed_size got.0
      then err failed_precondition
      else ok (
        read_bytes got.2.bytes (after.region.origin + after.offset) got.0,
        record after { offset = size_t (after.offset + fixed_size) },
        got.2,
      ))

unfoldable pub next_region : ℕ → MemoryReader → Status (MemoryRegion × MemoryReader)
unfolding create_sized
next_region length reader = do
  region ← create_sized reader.region reader.offset length
  ok (region, record reader { offset = size_t (reader.offset + length) })

unfoldable pub offset_to : ℕ → MemoryReader → MemoryReader
offset_to new_offset reader = record reader { offset = new_offset }

unfoldable pub skip_next : ℕ → MemoryReader → MemoryReader
skip_next skip_bytes reader = record reader { offset = size_t (reader.offset + skip_bytes) }

unfoldable pub align_to : ℕ → MemoryReader → MemoryReader
unfolding offset_to
align_to block_size reader =
    if reader.offset % block_size == 0
    then reader
    else offset_to (size_t (reader.offset / block_size + 1 * block_size)) reader

unfoldable pub has_next : MemoryReader → Bool
has_next reader = ltb reader.offset reader.region.size

-- PeekType and NextType: the reader of the generated type, and the size of a value, are arguments.
unfoldable pub peek_type :
    {A : Type 0}
    → (MemoryRegion → ℕ → Store → Status (A × Store))
    → MemoryReader
    → Store
    → Status (A × Store)
peek_type read_type reader s = read_type reader.region reader.offset s

unfoldable pub next_type :
    {A : Type 0}
    → (MemoryRegion → ℕ → Store → Status (A × Store))
    → (A → ℕ)
    → MemoryReader
    → Store
    → Status (A × MemoryReader × Store)
next_type read_type size reader s = do
  got ← read_type reader.region reader.offset s
  ok (got.0, record reader { offset = size_t (reader.offset + size got.0) }, got.1)
