-- ===== src/Memory/Manager/Copy.antt =====
-- AllocateHandleForRegion: the bytes that are copied into the new block.
use Prim.Native.String.{String}
use cyder.Base.{
  ℕ, zero, suc, ◌+◌, ◌-◌, ◌^◌, ◌≤◌, ◌<◌, ◌≡◌, refl, ap, ◌∙◌, ◌&&◌, List, [], ◌∷◌, arith, ltb, leb,
  if◌then◌else◌, ok,
}
use cyder.Memory.Bytes.{update, read_bytes, write_bytes, host_bytes, host_value, htobe, betoh}
use cyder.Memory.Region.{
  MemoryRegion, Store, size_t, read_uint, write_uint, notify, on_read, on_write,
}
use cyder.Memory.Manager.Table.{Keys, Keys-le}
use cyder.Memory.Manager.Cells.{cell_ext, read_word_lem, cell-stored_self}
use cyder.Memory.Manager.Defs.{
  MemoryManager, HandleMetadata, heap_start, heap_end, heap_handle_offset, system_memory,
  system_memory_size, copy_region, read_word, allocate_handle_for_region,
}
use cyder.Memory.Manager.Invariant.{
  IsWellFormed, next_handle, allocated, allocate_handle_lem, allocated-IsWellFormed, Live,
}

read_byte :
    (region : MemoryRegion) (from : Store) (i : ℕ)
    → i + 1 ≤ region.maximum_size
    → region.maximum_size < 2 ^ 64
    → from.bytes (region.origin + i) < 256
    → (u : Store) × (read_uint 1 region i from ≡ ok (from.bytes (region.origin + i), u))
unfolding read_uint read_bytes host_value betoh
read_byte region from i fits small byte =
    (notify (on_read (size_t (region.base_offset + i)) 1) from, ground arith)

write_byte :
    (a b : ℕ) (s : Store)
    → a + 1 ≤ system_memory_size
    → b < 256
    → (t : Store) × (write_uint 1 system_memory a b s ≡ ok t)
      × ((x : ℕ) → t.bytes x ≡ update s.bytes a b x)
unfolding write_uint system_memory write_bytes htobe
write_byte a b s fits byte = (
  notify (on_write (size_t (0 + a)) 1)
      (record s { bytes = write_bytes s.bytes (0 + a) (host_bytes 1 (htobe 1 b)) }),
  ground arith,
  λ x. ground arith,
)

-- The bytes after `n` bytes of a region, from its i-th on, have been copied to `to`.
abbrev pub Copied : MemoryRegion → Store → ℕ → ℕ → ℕ → (ℕ → ℕ) → (ℕ → ℕ) → Type 0
Copied region from to i n old new =
    (x : ℕ)
    → new x ≡ (
        if leb (to + i) x && ltb x (to + i + n)
        then from.bytes (region.origin + (x - to))
        else old x)

-- The region's bytes are bytes, from the i-th on.
abbrev pub HasBytes : MemoryRegion → Store → ℕ → Type 0
HasBytes region from n = (j : ℕ) → j < n → from.bytes (region.origin + j) < 256

copy_region_lem :
    (region : MemoryRegion) (from : Store) (to n i end : ℕ) (m : MemoryManager)
    → i + n ≡ end
    → to + end ≤ system_memory_size
    → end ≤ region.maximum_size
    → region.maximum_size < 2 ^ 64
    → HasBytes region from end
    → (s : Store) × (copy_region region from to n i m ≡ ok (record m { memory = s }))
      × Copied region from to i n m.memory.bytes s.bytes
unfolding copy_region
copy_region_lem region from to zero i end m e room fits small bytes =
    (m.memory, refl, λ x. ground arith)
copy_region_lem region from to (suc n) i end m e room fits small bytes =
    let got = read_byte region from i (omega arith) small (bytes i (omega arith)) in
    let put =
      write_byte (to + i) (from.bytes (region.origin + i)) m.memory (omega arith)
        (bytes i (omega arith)) in
    let rest =
      copy_region_lem region from to n (i + 1) end (record m { memory = put.0 }) (omega arith) room
        fits small bytes in
    (rest.0, ground (arith, got.1, put.1, rest.1), λ x. ground (arith, put.2 x, rest.2 x))

Live-ext :
    (lo hi : ℕ) (bytes bytes' : ℕ → ℕ) (m : List (ℕ × HandleMetadata))
    → Keys 4 lo hi m
    → ((x : ℕ) → x < hi → bytes' x ≡ bytes x)
    → Live bytes m
    → Live bytes' m
Live-ext lo hi bytes bytes' [] ks same l = tt
Live-ext lo hi bytes bytes' ((h, d) ∷ m) ks same l = (
  cell_ext bytes' bytes h (λ x p q. same x (omega (arith, Keys-le 4 (h + 4) hi m ks.1))) ∙ l.0,
  Live-ext (h + 4) hi bytes bytes' m ks.1 same l.1,
)

-- For a well-formed manager and a region of bytes within its array, of a size below 2 ^ 32 and
-- an extent below 2 ^ 64, with room in the heap as Allocate checks it and a free handle,
-- AllocateHandleForRegion succeeds with the next handle: its block holds the bytes of the
-- region, the table is that of AllocateHandle, and the manager is well formed.
pub allocate_handle_for_region_lem :
    (region : MemoryRegion) (from : Store) (tag : String) (m : MemoryManager)
    → IsWellFormed m
    → region.size ≤ region.maximum_size
    → region.size < 2 ^ 32
    → region.maximum_size < 2 ^ 64
    → HasBytes region from region.size
    → m.heap_offset + region.size < heap_end
    → m.handle_offset < heap_handle_offset
    → (m' : MemoryManager) × (allocate_handle_for_region region from tag m ≡ ok (next_handle m, m'))
      × IsWellFormed m'
      × (m'.handles ≡ (allocated region.size tag m).handles)
      × ((j : ℕ)
          → j < region.size
          → m'.memory.bytes (heap_start + m.heap_offset + j) ≡ from.bytes (region.origin + j))
unfolding allocate_handle_for_region
allocate_handle_for_region_lem region from tag m w fits small max_small bytes room slot =
    let grown = allocated region.size tag m in
    let grown_w : IsWellFormed grown = allocated-IsWellFormed region.size tag m w room slot in
    let to : ℕ = heap_start + m.heap_offset in
    let copy =
      copy_region_lem region from to region.size 0 region.size grown (omega arith)
        (omega (arith, w.blocks_fit)) fits max_small bytes in
    let start_at : read_word grown (next_handle m) ≡ ok to =
      read_word_lem grown (next_handle m) (omega (arith, w.handles_fit))
      ∙ ap ok (cell-stored_self (next_handle m) to m.memory (omega (arith, w.blocks_fit))) in
    (
      record grown { memory = copy.0 },
      ground (arith, allocate_handle_lem region.size tag m w small, start_at, copy.1),
      record {
        keys = grown_w.keys;
        live =
            Live-ext heap_start (next_handle grown) grown.memory.bytes copy.0.bytes grown.handles
              grown_w.keys (λ x l. ground (arith, copy.2 x, w.blocks_after)) grown_w.live;
        handles_fit = grown_w.handles_fit;
        aligned = grown_w.aligned;
        blocks_after = grown_w.blocks_after;
        blocks_fit = grown_w.blocks_fit;
      },
      refl,
      λ j l. ground (arith, copy.2 (to + j)),
    )
