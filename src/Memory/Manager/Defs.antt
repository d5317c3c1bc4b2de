-- ===== src/Memory/Manager/Defs.antt =====
-- emu/memory/memory_manager.{h,cc}: the state and every operation.
use Prim.Native.String.{String}
use cyder.Base.{
  ℕ, zero, suc, ◌+◌, ◌-◌, ◌*◌, ◌%◌, ◌^◌, Bool, true, false, ◌&&◌, List, [], ◌∷◌, none, some, ltb,
  leb, ◌==◌, if◌then◌else◌, Status, ok, crash, ◌>>=◌, ◌>>◌, must, check,
}
use cyder.Memory.Manager.Table.{find, insert, erase, assign}
use cyder.Memory.Region.{
  MemoryRegion, Store, base_region, create_sized, read_uint, write_uint, size_t,
}

abbrev pub system_memory_size : ℕ
system_memory_size = 512 * 1024

abbrev pub stack_start : ℕ
stack_start = system_memory_size - 32 * 1024

abbrev pub stack_end : ℕ
stack_end = stack_start - 4 * 1024

abbrev pub heap_start : ℕ
heap_start = 0x1C00 + 4 * 1024

abbrev pub heap_end : ℕ
heap_end = stack_end

abbrev pub heap_handle_offset : ℕ
heap_handle_offset = 4096

-- GlobalVars::ApplLimit, as gen/global_names.txt has it.
abbrev pub appl_limit : ℕ
appl_limit = 0x130

-- `kSystemMemory`.
unfoldable pub system_memory : MemoryRegion
unfolding base_region
system_memory = base_region system_memory_size true

abbrev pub u32 : ℕ → ℕ
u32 n = n % 2 ^ 32

pub record HandleMetadata : Type 0 where
  pub tag : String
  pub start : ℕ
  pub end : ℕ
  pub size : ℕ

pub record MemoryManager : Type 0 where
  pub heap_offset : ℕ
  pub handle_offset : ℕ
  pub handles : List (ℕ × HandleMetadata)
  pub memory : Store

-- `Handle` and `Ptr` are uint32_t; a four-byte word of the system memory.
unfoldable pub read_word : MemoryManager → ℕ → Status ℕ
unfolding must
read_word m address = do got ← must (read_uint 4 system_memory address m.memory); ok got.0

unfoldable pub write_word : ℕ → ℕ → MemoryManager → Status MemoryManager
unfolding must
write_word address v m = do
  s ← must (write_uint 4 system_memory address v m.memory)
  ok (record m { memory = s })

unfoldable pub initial : Store → MemoryManager
initial s = record { heap_offset = heap_handle_offset; handle_offset = 0; handles = []; memory = s }

unfoldable pub allocate : ℕ → MemoryManager → Status (ℕ × MemoryManager)
allocate size m = do
  let ptr = heap_start + m.heap_offset
  let offset = size_t (m.heap_offset + size)
  check (ltb offset heap_end)
  ok (u32 ptr, record m { heap_offset = offset })

unfoldable pub new_metadata : String → ℕ → ℕ → HandleMetadata
new_metadata tag block size = record {
  tag = tag;
  start = block;
  end = u32 (block + size);
  size = size;
}

unfoldable pub allocate_handle : ℕ → String → MemoryManager → Status (ℕ × MemoryManager)
allocate_handle size tag m = do
  allocated ← allocate size m
  let block = allocated.0
  let handle = u32 (heap_start + m.handle_offset)
  check (ltb m.handle_offset heap_handle_offset)
  written ← write_word handle block (record (allocated.1) { handle_offset = m.handle_offset + 4 })
  ok (
    handle,
    record written { handles = insert handle (new_metadata tag block size) written.handles },
  )

-- The loop of AllocateHandleForRegion, with n bytes left from the i-th on; `from` is the array
-- that the region stands on.
unfoldable pub copy_region : MemoryRegion → Store → ℕ → ℕ → ℕ → MemoryManager → Status MemoryManager
unfolding must
copy_region region from load_addr zero i m = ok m
copy_region region from load_addr (suc n) i m = do
  byte ← must (read_uint 1 region i from)
  s ← must (write_uint 1 system_memory (load_addr + i) byte.0 m.memory)
  copy_region region from load_addr n (i + 1) (record m { memory = s })

unfoldable pub allocate_handle_for_region :
    MemoryRegion → Store → String → MemoryManager → Status (ℕ × MemoryManager)
allocate_handle_for_region region from tag m = do
  allocated ← allocate_handle (u32 region.size) tag m
  load_addr ← read_word (allocated.1) allocated.0
  copied ← copy_region region from load_addr region.size 0 allocated.1
  ok (allocated.0, copied)

-- `find` with the CHECK that the handle is there.
unfoldable pub entry : ℕ → MemoryManager → Status HandleMetadata
entry handle m = elim (find handle m.handles) [ none ↦ crash | some d ↦ ok d ]

unfoldable pub get_ptr_for_handle : ℕ → MemoryManager → Status ℕ
get_ptr_for_handle handle m = do
  metadata ← entry handle m
  current_ptr ← read_word m handle
  check (current_ptr == metadata.start)
  ok current_ptr

unfoldable pub update_handle : ℕ → ℕ → ℕ → MemoryManager → Status MemoryManager
update_handle handle new_address new_size m = do
  metadata ← entry handle m
  written ← write_word handle new_address m
  let updated = record metadata { start = new_address; size = new_size }
  ok (record written { handles = assign handle updated written.handles })

unfoldable pub get_region_for_handle : ℕ → MemoryManager → Status MemoryRegion
unfolding must
get_region_for_handle handle m = do
  metadata ← entry handle m
  current_ptr ← read_word m handle
  check (current_ptr == metadata.start)
  must (create_sized system_memory metadata.start metadata.size)

unfoldable pub deallocate : ℕ → MemoryManager → Bool × MemoryManager
deallocate handle m = elim (find handle m.handles) [
  | none ↦ (false, m)
  | some d ↦ (true, record m { handles = erase handle m.handles })
]

unfoldable pub get_tag : ℕ → MemoryManager → String
get_tag handle m = elim (find handle m.handles) [ none ↦ "" | some d ↦ d.tag ]

unfoldable pub contains : ℕ → HandleMetadata → Bool
contains address d = ltb address d.end && leb d.start address

unfoldable pub find_containing : ℕ → List (ℕ × HandleMetadata) → ℕ
find_containing address [] = 0
find_containing address ((h, d) ∷ rest) =
    if contains address d then h else find_containing address rest

unfoldable pub get_handle_that_contains : ℕ → MemoryManager → ℕ
get_handle_that_contains address m = find_containing address m.handles

unfoldable pub get_handle_size : ℕ → MemoryManager → Status ℕ
get_handle_size handle m = do metadata ← entry handle m; ok metadata.size

unfoldable pub set_appl_limit : ℕ → MemoryManager → Status (Bool × MemoryManager)
set_appl_limit last_addr m =
    if leb heap_end last_addr
    then ok (false, m)
    else do written ← write_word appl_limit last_addr m; ok (true, written)

unfoldable pub get_free_memory_size : MemoryManager → ℕ
get_free_memory_size m = u32 (heap_end + 2 ^ 64 - m.heap_offset)

unfoldable pub has_space_for_allocation : ℕ → MemoryManager → Bool
has_space_for_allocation size m = ltb (size_t (m.heap_offset + size)) heap_end

unfoldable pub recover_handle : ℕ → MemoryManager → Status (ℕ × MemoryManager)
recover_handle ptr m = do
  let handle = u32 (heap_start + m.handle_offset)
  written ← write_word handle ptr m
  ok (handle, record written { handle_offset = written.handle_offset + 4 })

-- The typed accessors: the generated ReadType and WriteType at a region are arguments.
unfoldable pub read_type_from_handle :
    {A : Type 0} → (MemoryRegion → Store → Status A) → ℕ → MemoryManager → Status A
read_type_from_handle read_type handle m = do
  region ← get_region_for_handle handle m
  read_type region m.memory

unfoldable pub write_type_to_handle :
    (MemoryRegion → Store → Status Store) → ℕ → MemoryManager → Status MemoryManager
write_type_to_handle write_type handle m = do
  region ← get_region_for_handle handle m
  s ← write_type region m.memory
  ok (record m { memory = s })

unfoldable pub new_handle_for :
    (MemoryRegion → Store → Status Store) → ℕ → String → MemoryManager → Status (ℕ × MemoryManager)
new_handle_for write_type size tag m = do
  allocated ← allocate_handle (u32 size) tag m
  region ← get_region_for_handle allocated.0 allocated.1
  s ← write_type region (allocated.1).memory
  ok (allocated.0, record (allocated.1) { memory = s })
