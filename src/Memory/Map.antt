-- ===== src/Memory/Map.antt =====
-- emu/memory/memory_map.{h,cc}: the bounds of the A5 world, the regions whose accesses are logged,
-- and the checks of every access of the processor. The generated lookup GetGlobalVar is a parameter;
-- the addresses of the globals are those of gen/global_names.txt.
pub mod Access
use cyder.Base.{
  ℕ, ◌+◌, ◌-◌, ◌*◌, ◌%◌, ◌^◌, ◌≡◌, Bool, true, false, not, ◌&&◌, ◌||◌, List, [], ◌∷◌, ◌++◌, ltb,
  leb, ◌==◌, if◌then◌else◌, any, erase_if, Status, ok, err, failed_precondition, min, max,
}
use cyder.Memory.Region.{Store, set_watcher, size_t}
use cyder.Memory.Manager.Defs.{
  system_memory_size, stack_start, stack_end, heap_start, heap_end, u32,
}

abbrev pub base_toolbox_trap_address : ℕ
base_toolbox_trap_address = system_memory_size - 2 - 4 - 256 * 2 - 1024 * 2

abbrev pub last_emulated_subroutine_address : ℕ
last_emulated_subroutine_address = base_toolbox_trap_address - 2

abbrev pub system_heap_start : ℕ
system_heap_start = 0x1C00

-- `Field` of the generated types: its offset and size.
pub record Field : Type 0 where
  pub offset : ℕ
  pub size : ℕ

pub record RegionEntry : Type 0 where
  pub start : ℕ
  pub end : ℕ
  pub whitelist : List Field

pub record MemoryMap : Type 0 where
  pub above_a5_size : ℕ
  pub below_a5_size : ℕ
  pub a5_world : ℕ
  pub has_initialized_memory : ℕ → Bool
  pub log_read_regions : List RegionEntry
  pub log_write_regions : List RegionEntry

-- `fatal` is LOG(FATAL) or a CHECK, which end the program; `warns` is LOG(WARNING).
pub data Verdict : Type 0 where
  allows warns fatal : Verdict

abbrev pub whitelist_read_global_vars : List ℕ
whitelist_read_global_vars =
    0x0904 ∷ 0x0910 ∷ 0x0908 ∷ 0x0AEC ∷ 0x09DE ∷ 0x020C ∷ 0x0A06 ∷ 0x0A02 ∷ 0x031A ∷ 0x0A4A ∷ 0x09FA
    ∷ 0x0A0E ∷ 0x0316 ∷ 0x0930 ∷ 0x0260 ∷ 0x028E ∷ 0x0106 ∷ 0x02F0 ∷ 0x0100 ∷ []

abbrev pub whitelist_write_global_vars : List ℕ
whitelist_write_global_vars =
    0x0A4A ∷ 0x09FA ∷ 0x0A0E ∷ 0x0A5E ∷ 0x0220 ∷ 0x09DC ∷ 0x08DA ∷ 0x08D6 ∷ []

unfoldable pub field_covers : ℕ → Field → Bool
field_covers relative_offset field =
    leb field.offset relative_offset && ltb relative_offset (field.offset + field.size)

-- For an address from the start of the entry on.
unfoldable pub should_log_access : RegionEntry → ℕ → Bool
unfolding any field_covers
should_log_access entry address = not (any (field_covers (address - entry.start)) entry.whitelist)

abbrev pub within_region : ℕ → ℕ → ℕ → Bool
within_region address lower upper = leb lower address && ltb address upper

unfoldable pub is_logged : List RegionEntry → ℕ → Bool
unfolding should_log_access
is_logged [] address = false
is_logged (e ∷ entries) address =
    within_region address e.start e.end && should_log_access e address || is_logged entries address

-- InitializedWatcher::OnWrite.
unfoldable pub on_write : ℕ → ℕ → MemoryMap → MemoryMap
on_write offset size map = record map {
  has_initialized_memory =
      λ a. within_region a offset (offset + size) || map.has_initialized_memory a;
}

unfoldable pub set_a5_world_bounds : ℕ → ℕ → MemoryMap → Status (Unit {0}) × MemoryMap
set_a5_world_bounds above_a5 below_a5 map =
    let map' = record map {
      above_a5_size = above_a5;
      below_a5_size = below_a5;
      a5_world = u32 (stack_start + below_a5);
    } in
    if ltb last_emulated_subroutine_address (u32 (above_a5 + map'.a5_world))
    then (err failed_precondition, map')
    else (ok tt, map')

abbrev pub in_system_globals : ℕ → Bool
in_system_globals address =
    within_region address 0x0100 0x0400 || within_region address 0x0800 0x0C00

module _ (get_global_var : ℕ → ℕ) where
  unfoldable pub check_read_access : MemoryMap → ℕ → Verdict
  unfolding is_logged any
  check_read_access map address =
      if is_logged map.log_read_regions address
      then fatal
      else if within_region address 0 0x0100
      then allows
      else if in_system_globals address
      then (if any (λ v. v == get_global_var address) whitelist_read_global_vars
          then allows
          else fatal)
      else if within_region address 0x0400 0x07FF
      then fatal
      else if within_region address 0x0C00 0x1C00
      then fatal
      else if within_region address system_heap_start heap_start
      then (if map.has_initialized_memory address then allows else warns)
      else if within_region address heap_start heap_end
      then allows
      else if within_region address stack_end stack_start
      then allows
      else if address == map.a5_world
      then warns
      else if within_region address (u32 (map.a5_world + 2 ^ 32 - map.below_a5_size)) map.a5_world
      then (if map.has_initialized_memory address then allows else warns)
      else if within_region address map.a5_world (u32 (map.a5_world + map.above_a5_size))
      then (if ltb address (u32 (map.a5_world + 32)) then warns else allows)
      else if leb last_emulated_subroutine_address address
      then allows
      else fatal

  -- The map changes only where a byte becomes initialized.
  unfoldable pub check_write_access : MemoryMap → ℕ → Verdict × MemoryMap
  unfolding is_logged any on_write
  check_write_access map address =
      if is_logged map.log_write_regions address
      then (fatal, map)
      else if within_region address 0 0x0100
      then (fatal, map)
      else if in_system_globals address
      then (
        (if any (λ v. v == get_global_var address) whitelist_write_global_vars
            then allows
            else fatal),
        map,
      )
      else if within_region address 0x0400 0x07FF
      then (fatal, map)
      else if within_region address 0x0C00 0x1C00
      then (fatal, map)
      else if within_region address system_heap_start heap_start
      then (if map.has_initialized_memory address
          then (allows, map)
          else (warns, on_write address 1 map))
      else if within_region address heap_start heap_end
      then (allows, map)
      else if within_region address stack_end stack_start
      then (allows, map)
      else if address == map.a5_world
      then (warns, map)
      else if within_region address (u32 (map.a5_world + 2 ^ 32 - map.below_a5_size)) map.a5_world
      then (allows, on_write address 1 map)
      else if within_region address map.a5_world (u32 (map.a5_world + map.above_a5_size))
      then (warns, map)
      else (fatal, map)

-- The entry that is removed is the first that overlaps.
unfoldable pub overlaps : ℕ → ℕ → RegionEntry → Bool
overlaps new_offset new_size entry =
    ltb (max entry.start new_offset) (min entry.end (size_t (new_offset + new_size)))

unfoldable pub maybe_remove_overlapping_entry : List RegionEntry → ℕ → ℕ → List RegionEntry
unfolding overlaps erase_if
maybe_remove_overlapping_entry entries new_offset new_size =
    erase_if (overlaps new_offset new_size) entries

unfoldable pub log_region_access : ℕ → ℕ → Bool → Bool → List Field → MemoryMap → MemoryMap
unfolding maybe_remove_overlapping_entry
log_region_access offset length on_read on_write whitelist_fields map =
    let entry : RegionEntry = record {
      start = offset;
      end = size_t (offset + length);
      whitelist = whitelist_fields;
    } in
    record map {
      log_read_regions =
          if on_read
          then maybe_remove_overlapping_entry map.log_read_regions offset length ++ (entry ∷ [])
          else map.log_read_regions;
      log_write_regions =
          if on_write
          then maybe_remove_overlapping_entry map.log_write_regions offset length ++ (entry ∷ [])
          else map.log_write_regions;
    }

unfoldable pub install_memory_watcher : Store → Store
unfolding set_watcher
install_memory_watcher = set_watcher true
