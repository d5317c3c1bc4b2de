-- ===== src/Memory/MapTests.antt =====
-- The theorems on the memory map and the reader at small instances.
use cyder.Base.{◌+◌, ◌-◌, ◌^◌, ◌≤◌, ◌<◌, ◌≡◌, ◌≢◌, refl, ◌⊎◌, true, false, [], ◌∷◌, arith, ok, any}
use cyder.Memory.Manager.Defs.{heap_start, stack_start, u32}
use cyder.Memory.Map.{
  Field, MemoryMap, fatal, field_covers, within_region, is_logged, set_a5_world_bounds,
  in_system_globals, check_read_access, check_write_access, log_region_access,
}
use cyder.Memory.Map.Access.{log_region_access_protects, check_write_access_allowed}
use cyder.Memory.Reader.{MemoryReader}

abbrev no_map : MemoryMap
no_map = record {
  above_a5_size = 0;
  below_a5_size = 0;
  a5_world = 0;
  has_initialized_memory = λ a. false;
  log_read_regions = [];
  log_write_regions = [];
}

abbrev top_field : Field
top_field = record { offset = 0; size = 2 }

not_covered : any (field_covers 4) (top_field ∷ []) ≡ false
unfolding any field_covers
not_covered = refl

log_region_access_protects_example :
    check_read_access
      (λ a. a)
      (log_region_access heap_start 8 true true (top_field ∷ []) no_map)
      (heap_start + 4)
    ≡ fatal
log_region_access_protects_example =
    log_region_access_protects (λ a. a) heap_start 8 (heap_start + 4) true (top_field ∷ []) no_map
      (omega arith) (omega arith) (omega arith) not_covered

bounds_ok : (set_a5_world_bounds 100 200 no_map).0 ≡ ok tt
unfolding set_a5_world_bounds
bounds_ok = refl

not_fatal : (check_write_access (λ a. a) no_map (heap_start + 4)).0 ≢ fatal
unfolding check_write_access
not_fatal h = ground (arith, h)

check_write_access_allowed_example :
    (is_logged no_map.log_write_regions (heap_start + 4) ≡ false)
    × (0x0100 ≤ heap_start + 4)
    × ((in_system_globals (heap_start + 4) ≡ true)
        ⊎ ((0x1C00 ≤ heap_start + 4) × (heap_start + 4 < stack_start))
        ⊎ (heap_start + 4 ≡ no_map.a5_world)
        ⊎ (within_region
              (heap_start + 4)
              (u32 (no_map.a5_world + 2 ^ 32 - no_map.below_a5_size))
              no_map.a5_world
            ≡ true)
        ⊎ (within_region
              (heap_start + 4)
              no_map.a5_world
              (u32 (no_map.a5_world + no_map.above_a5_size))
            ≡ true))
check_write_access_allowed_example =
    check_write_access_allowed (λ a. a) no_map (heap_start + 4) not_fatal

abbrev reader : MemoryReader
reader = record {
  region = record {
    origin = 0;
    size = 32;
    maximum_size = 32;
    base_offset = 0;
    is_big_endian = true;
  };
  offset = 9;
}
