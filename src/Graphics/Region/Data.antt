-- ===== src/Graphics/Region/Data.antt =====
-- Offset of emu/graphics/region.cc on the data of a region in the memory: the readers of the
-- scanlines and of their rows, over the model of MemoryReader. A loop takes as fuel the size of the
-- region that it reads, in bytes; each turn reads at least one byte.
pub mod Reads
pub mod Refines
use cyder.Base.{
  ℕ, zero, suc, ◌+◌, ◌-◌, ◌*◌, ◌/◌, ◌%◌, ◌^◌, true, false, List, [], ◌∷◌, ◌++◌, Status, ok, crash,
  must, ◌>>=◌, ℤ, pos, negsuc, ◌+ℤ◌, wrap16, signed16, bits16, if◌then◌else◌, length,
}
use cyder.Memory.Region.{Store, MemoryRegion, base_region, read_uint, size_t}
use cyder.Memory.Reader.{MemoryReader, next, next_type, next_region, has_next}
use cyder.Graphics.Rows.{Range}

-- The bytes of a vector of int16_t on a little-endian host, and ConvertRegion's view of them.
unfoldable pub data_bytes : List ℤ → ℕ → ℕ
data_bytes [] x = 0
data_bytes (v ∷ vs) zero = bits16 v % 256
data_bytes (v ∷ vs) (suc zero) = bits16 v / 256
data_bytes (v ∷ vs) (suc (suc x)) = data_bytes vs x

unfoldable pub convert_region : List ℤ → MemoryRegion × Store
unfolding base_region data_bytes
convert_region owned_data = (
  base_region (2 * length owned_data) false,
  record { bytes = data_bytes owned_data; watched = false; notes = [] },
)

-- Next<int16_t>.
unfoldable pub next_int16 : MemoryReader → Store → Status (ℤ × MemoryReader × Store)
unfolding next
next_int16 reader s = do got ← next 2 reader s; ok (signed16 got.0, got.1, got.2)

-- ReadType<Range>.
unfoldable pub read_range : MemoryRegion → ℕ → Store → Status (Range × Store)
unfolding read_uint
read_range region offset s = do
  start ← read_uint 2 region offset s
  end ← read_uint 2 region (size_t (offset + 2)) start.1
  ok (record { start = signed16 start.0; end = signed16 end.0 }, end.1)

-- `count * sizeof(int16_t)`, of size_t.
unfoldable pub row_bytes : ℤ → ℕ
row_bytes (pos n) = 2 * n
row_bytes (negsuc n) = 2 ^ 64 - 2 * suc n

-- Offset of a row.
unfoldable pub offset_row_data : ℕ → ℤ → MemoryReader → Store → Status (List ℤ × Store)
unfolding has_next next_type read_range must wrap16
offset_row_data zero offset reader s = if has_next reader then crash else ok ([], s)
offset_row_data (suc fuel) offset reader s = elim (has_next reader) [
  | true ↦ do
    got ← must (next_type read_range (λ range. 4) reader s)
    let range = got.0
    rest ← offset_row_data fuel offset got.1 got.2
    ok (wrap16 (range.start +ℤ offset) ∷ wrap16 (range.end +ℤ offset) ∷ rest.0, rest.1)
  | false ↦ ok ([], s)
]

-- The loop of Offset of a region.
unfoldable pub offset_data : ℕ → ℤ → ℤ → MemoryReader → Store → Status (List ℤ × Store)
unfolding has_next next_int16 must next_region row_bytes offset_row_data wrap16
offset_data zero dx dy reader s = if has_next reader then crash else ok ([], s)
offset_data (suc fuel) dx dy reader s = elim (has_next reader) [
  | true ↦ do
    y ← must (next_int16 reader s)
    count ← must (next_int16 y.1 y.2)
    line ← must (next_region (row_bytes count.0) count.1)
    row ← offset_row_data (line.0).size dx (record { region = line.0; offset = 0 }) count.2
    rest ← offset_data fuel dx dy line.1 row.1
    ok (wrap16 (y.0 +ℤ dy) ∷ count.0 ∷ row.0 ++ rest.0, rest.1)
  | false ↦ ok ([], s)
]

-- The data that Offset makes of the data of a region.
unfoldable pub offset_owned_data : List ℤ → ℤ → ℤ → Status (List ℤ)
unfolding convert_region offset_data
offset_owned_data owned_data dx dy = do
  let data' = convert_region owned_data
  made ← offset_data (data'.0).size dx dy (record { region = data'.0; offset = 0 }) data'.1
  ok made.0
