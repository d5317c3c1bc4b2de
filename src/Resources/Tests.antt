-- ===== src/Resources/Tests.antt =====
-- The theorems on resources and segments at small instances.
use Prim.Native.String.{String}
use cyder.Base.{
  ℕ, ◌+◌, ◌%◌, ◌<◌, ◌≡◌, refl, true, false, [], ◌∷◌, none, ok, err, crash, Status, arith, length,
  check,
}
use cyder.Memory.Bytes.{betoh, read_bytes, write_bytes, htobe}
use cyder.Memory.Region.{MemoryRegion, Store, read_uint, write_uint}
use cyder.Memory.Manager.Defs.{
  initial, heap_start, allocate_handle, allocate, write_word, read_word, system_memory, copy_region,
}
use cyder.Memory.Manager.Invariant.{IsWellFormed, next_handle, initial-IsWellFormed}
use cyder.Resources.Defs.{Resource, ResourceTypeItem, load_group}
use cyder.Resources.Manager.{
  ResourceManager, find_handle, find_in_files, get_resource, get_resource_by_name,
}
use cyder.Resources.Loading.{IsLoadable, InOrder, get_resource_loads, load_group-InOrder}
use cyder.Resources.Cached.{Reaches, get_resource_stays}
use cyder.Resources.Segment.{load_jumps}
use cyder.Resources.Jumps.{Loaded, load_jumps-Loaded}

abbrev zeros : Store
zeros = record { bytes = λ a. 0; watched = false; notes = [] }

abbrev rising : Store
rising = record { bytes = λ a. a % 256; watched = false; notes = [] }

abbrev window : ℕ → ℕ → MemoryRegion
window origin size = record {
  origin = origin;
  size = size;
  maximum_size = size;
  base_offset = origin;
  is_big_endian = true;
}

abbrev icon : Resource
icon = record {
  entry = record { id = 5; name_offset = 65535; attributes = 0; data_offset = 10; handle = 0 };
  data' = window 14 3;
  name = [];
}

abbrev resources : ResourceManager
resources = record {
  memory_manager = initial zeros;
  resource_file = record {
    array = rising;
    resource_groups =
        record { type_item = record { type_id = 7; count = 0; offset = 2 }; resources = icon ∷ [] }
        ∷ [];
  };
  system_file = none;
  resource_to_handle = [];
}

abbrev tag_of : ℕ → ℕ → String
tag_of type_id id = "Resource"

icon-IsLoadable : IsLoadable icon rising (initial zeros)
unfolding initial
icon-IsLoadable = record {
  within = omega arith;
  small = omega arith;
  array_small = omega arith;
  bytes = λ j l. omega arith;
  room = omega arith;
  slot = omega arith;
}

get_resource_loads_example :
    (m' : ResourceManager) × (get_resource tag_of 7 5 resources
      ≡ ok (next_handle (initial zeros), m'))
    × IsWellFormed m'.memory_manager
    × ((j : ℕ)
        → j < 3
        → m'.memory_manager.memory.bytes (heap_start + (initial zeros).heap_offset + j)
          ≡ rising.bytes (14 + j))
unfolding find_handle find_in_files
get_resource_loads_example =
    get_resource_loads tag_of 7 5 icon rising resources (initial-IsWellFormed zeros) refl refl
      icon-IsLoadable

abbrev result_of : Status (ℕ × ResourceManager) → ResourceManager
result_of (ok r) = r.1
result_of (err c) = resources
result_of crash = resources

abbrev after_load : ResourceManager
unfolding get_resource
after_load = result_of (get_resource tag_of 7 5 resources)

abbrev after_name : ResourceManager
unfolding get_resource_by_name after_load
after_name = result_of (get_resource_by_name tag_of 9 (1 ∷ []) after_load)

get_resource_stays_example : get_resource tag_of 7 5 after_name ≡ ok (11264, after_name)
unfolding get_resource get_resource_by_name after_load after_name allocate_handle allocate check
    initial write_word write_uint system_memory read_word read_uint copy_region betoh read_bytes
    write_bytes htobe
get_resource_stays_example =
    get_resource_stays tag_of 7 5 11264 resources after_load after_name refl
      (Reaches.gets_by_name 9 (1 ∷ []) 0 after_load after_name Reaches.start refl)

abbrev two_entries : ResourceTypeItem
two_entries = record { type_id = 7; count = 1; offset = 2 }

abbrev blank_resource : Resource
blank_resource = record {
  entry = record { id = 0; name_offset = 0; attributes = 0; data_offset = 0; handle = 0 };
  data' = record { origin = 4; size = 0; maximum_size = 96; base_offset = 4; is_big_endian = true };
  name = [];
}

load_group-InOrder_example :
    (length (blank_resource ∷ blank_resource ∷ []) ≡ 2)
    × InOrder (window 0 100) 2 (blank_resource ∷ blank_resource ∷ []) zeros
unfolding load_group read_uint read_bytes betoh
load_group-InOrder_example =
    load_group-InOrder (window 0 100) (window 0 100) (window 0 100) two_entries zeros
      record { type_item = two_entries; resources = blank_resource ∷ blank_resource ∷ [] } refl

load_jumps-Loaded_example : Loaded 5000 3 600 2 0 zeros.bytes (load_jumps 5000 3 600 2 0 zeros)
load_jumps-Loaded_example = load_jumps-Loaded 5000 3 600 2 0 zeros (omega arith) (omega arith)
