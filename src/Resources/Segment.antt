-- ===== src/Resources/Segment.antt =====
-- SegmentLoader: emu/segment_loader.cc, on the bytes of the system memory. What the debug manager is
-- told of a segment is left out; the position of the A5 world and its bounds are the memory map's.
use Prim.Native.String.{String}
use cyder.Base.{
  ℕ, zero, suc, ◌+◌, ◌-◌, ◌*◌, not, none, some, ◌==◌, Status, ok, err, failed_precondition, check,
  ◌>>=◌, ◌>>◌,
}
use cyder.Memory.Bytes.{read_bytes}
use cyder.Memory.Region.{MemoryRegion, Store, read_uint, write_uint, write_raw}
use cyder.Memory.Manager.Defs.{
  MemoryManager, system_memory, u32, allocate_handle, get_region_for_handle,
}
use cyder.Memory.Map.{MemoryMap, set_a5_world_bounds}
use cyder.Resources.Defs.{field}
use cyder.Resources.Manager.{ResourceManager, get_segment_zero, get_resource}

-- segment_types.tdef
pub record SegmentTableHeader : Type 0 where
  pub above_a5 : ℕ
  pub below_a5 : ℕ
  pub table_size : ℕ
  pub table_offset : ℕ

unfoldable pub read_segment_table_header : MemoryRegion → ℕ → Store → Status SegmentTableHeader
unfolding field
read_segment_table_header region offset file = do
  above_a5 ← field 4 region offset file
  below_a5 ← field 4 region (offset + 4) file
  table_size ← field 4 region (offset + 8) file
  table_offset ← field 4 region (offset + 12) file
  ok record {
    above_a5 = above_a5;
    below_a5 = below_a5;
    table_size = table_size;
    table_offset = table_offset;
  }

-- WriteType of a SegmentTableEntry: the segment, the jump instruction and its target.
unfoldable pub write_segment_table_entry : ℕ → ℕ → ℕ → Store → Status Store
unfolding write_uint
write_segment_table_entry offset segment_id address s = do
  s1 ← write_uint 2 system_memory offset segment_id s
  s2 ← write_uint 2 system_memory (offset + 2) 0x4EF9 s1
  write_uint 4 system_memory (offset + 4) address s2

-- The loop of Load, with `n` entries left; the last one of the table comes first.
unfoldable pub load_jumps : ℕ → ℕ → ℕ → ℕ → ℕ → Store → Status (ℕ × Store)
unfolding write_segment_table_entry
load_jumps base segment_id table zero absolute_address s = ok (absolute_address, s)
load_jumps base segment_id table (suc i) absolute_address s = do
  let offset = u32 (table + i * 8)
  routine_offset ← read_uint 2 system_memory offset s
  let absolute = u32 (base + routine_offset.0)
  written ← write_segment_table_entry offset segment_id absolute routine_offset.1
  load_jumps base segment_id table i absolute written

-- GlobalVars::AppParmHandle.
abbrev pub app_parm_handle : ℕ
app_parm_handle = 0xAEC

unfoldable pub write_app_params : ℕ → String → MemoryManager → Status MemoryManager
unfolding allocate_handle get_region_for_handle write_uint
write_app_params a5_world_offset tag m = do
  s1 ← write_uint 4 system_memory (a5_world_offset + 8) 0 m.memory
  s2 ← write_uint 4 system_memory (a5_world_offset + 12) 0 s1
  allocated ← allocate_handle 4 tag (record m { memory = s2 })
  let handle = allocated.0
  finder_info ← get_region_for_handle handle allocated.1
  s3 ← write_uint 2 finder_info 0 0 allocated.1.memory
  s4 ← write_uint 2 finder_info 2 0 s3
  s5 ← write_uint 4 system_memory (a5_world_offset + 16) handle s4
  s6 ← write_uint 4 system_memory app_parm_handle handle s5
  ok (record allocated.1 { memory = s6 })

-- Create: the jump table is copied to the A5 world as it is.
unfoldable pub create_loader :
    String
    → ResourceManager
    → MemoryMap
    → MemoryManager
    → Status (SegmentTableHeader × MemoryMap × MemoryManager)
unfolding get_segment_zero read_segment_table_header set_a5_world_bounds write_raw write_app_params
create_loader tag resources map m = elim (get_segment_zero resources) [
  | none ↦ err failed_precondition
  | some segment_zero ↦ do
    let table_data = segment_zero.data'
    let file = resources.resource_file.array
    header ← read_segment_table_header table_data 0 file
    check (header.table_size == table_data.size - 16)
    check (header.table_offset == 32)
    let bounds = set_a5_world_bounds header.above_a5 header.below_a5 map
    bounds.0
    let a5_world = bounds.1.a5_world
    s ←
        write_raw system_memory (read_bytes file.bytes (table_data.origin + 16) header.table_size)
          (a5_world + header.table_offset) header.table_size m.memory
    m' ← write_app_params a5_world tag (record m { memory = s })
    ok (header, bounds.1, m')
]

-- Load, for the A5 world at `a5_world` and the table at `table_offset` in it.
unfoldable pub load_segment :
    (ℕ → ℕ → String) → ℕ → ℕ → ℕ → ResourceManager → Status (ℕ × ResourceManager)
unfolding get_resource get_region_for_handle load_jumps
load_segment unique_id a5_world table_offset segment_id resources = do
  loaded ← get_resource unique_id 0x434F4445 segment_id resources
  let m = loaded.1.memory_manager
  resource_data ← get_region_for_handle loaded.0 m
  near_model ← read_uint 2 resource_data 0 m.memory
  check (not (near_model.0 == 0xFFFF))
  offset_in_table ← read_uint 2 resource_data 0 near_model.1
  table_entry_count ← read_uint 2 resource_data 2 offset_in_table.1
  let segment_table_offset = u32 (a5_world + table_offset + offset_in_table.0)
  jumps ←
      load_jumps (resource_data.base_offset + 4) segment_id segment_table_offset table_entry_count.0
        0 table_entry_count.1
  ok (jumps.0, record loaded.1 { memory_manager = record m { memory = jumps.1 } })
