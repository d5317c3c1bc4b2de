-- ===== src/Memory/Map/Access.antt =====
-- What the checks of the processor's accesses protect.
use cyder.Base.{
  ℕ, ◌+◌, ◌-◌, ◌^◌, ◌≡◌, ◌≤◌, ◌<◌, ◌≢◌, refl, ap, ◌∙◌, Bool, true, false, ◌&&◌, ◌||◌, List, [], ◌∷◌,
  ◌++◌, any, ok, arith, ◌⊎◌,
}
use cyder.Memory.Region.{size_t}
use cyder.Memory.Manager.Defs.{stack_start, u32}
use cyder.Memory.Map.{
  Field, RegionEntry, MemoryMap, fatal, should_log_access, within_region, is_logged,
  set_a5_world_bounds, check_read_access, check_write_access, maybe_remove_overlapping_entry,
  log_region_access, last_emulated_subroutine_address, field_covers, in_system_globals,
}

is_logged-append :
    (entries : List RegionEntry) (entry : RegionEntry) (address : ℕ)
    → is_logged (entries ++ (entry ∷ [])) address
      ≡ is_logged entries address
        || (within_region address entry.start entry.end && should_log_access entry address)
unfolding is_logged
is_logged-append [] entry address = ground arith
is_logged-append (e ∷ entries) entry address =
    ground (arith, is_logged-append entries entry address)

or_true : (b : Bool) → b || true ≡ true
or_true b = ground arith

within_lem : (a lo hi : ℕ) → lo ≤ a → a < hi → within_region a lo hi && true ≡ true
within_lem a lo hi h l = ground arith

-- After LogRegionAccess of the reads of a region, given by an offset and a length whose sum
-- fits 64 bits, a read in it that no whitelisted field covers ends the program, whatever was
-- logged before.
pub log_region_access_protects :
    (get_global_var : ℕ → ℕ) (offset length address : ℕ) (w : Bool) (fields : List Field)
    (map : MemoryMap)
    → offset + length < 2 ^ 64
    → offset ≤ address
    → address < offset + length
    → any (field_covers (address - offset)) fields ≡ false
    → check_read_access get_global_var (log_region_access offset length true w fields map) address
      ≡ fatal
unfolding log_region_access check_read_access should_log_access
log_region_access_protects get_global_var offset length address w fields map f h l c =
    rw
      (is_logged-append (maybe_remove_overlapping_entry map.log_read_regions offset length) entry
          address
        ∙ ap
            (λ t.
              is_logged (maybe_remove_overlapping_entry map.log_read_regions offset length) address
              || t)
            covered
        ∙ or_true _)
      refl
  where
    entry : RegionEntry
    entry = record { start = offset; end = size_t (offset + length); whitelist = fields }

    fits : size_t (offset + length) ≡ offset + length
    fits = omega (arith, f)

    covered :
        within_region address offset (size_t (offset + length)) && should_log_access entry address
        ≡ true
    covered = rw (c, fits) (within_lem address offset (offset + length) h l)

-- When SetA5WorldBounds succeeds, with bounds that fit 32 bits together with the start of the
-- stack, A5 is the size below it after the start of the stack, and the A5 world ends before the
-- last emulated subroutine.
set_a5_world_bounds_lem :
    (above below : ℕ) (map : MemoryMap)
    → stack_start + above + below < 2 ^ 32
    → (set_a5_world_bounds above below map).0 ≡ ok tt
    → let map' = (set_a5_world_bounds above below map).1 in
      (map'.a5_world ≡ stack_start + map'.below_a5_size)
      × (map'.a5_world + map'.above_a5_size ≤ last_emulated_subroutine_address)
unfolding set_a5_world_bounds
set_a5_world_bounds_lem above below map h e = ground (arith, h, e)

-- SetA5WorldBounds makes its check in 32 bits: for a size below A5 that fits, it succeeds with
-- a size above A5 of 2 ^ 32 less A5.
set_a5_world_bounds_wraps :
    (below : ℕ) (map : MemoryMap)
    → stack_start + below < 2 ^ 32
    → (set_a5_world_bounds (2 ^ 32 - (stack_start + below)) below map).0 ≡ ok tt
unfolding set_a5_world_bounds
set_a5_world_bounds_wraps below map h = ground arith

-- A write that CheckWriteAccess does not end the program for is in no region whose writes are
-- logged and not in the interrupt vectors, and goes to the system globals, to the heaps or the
-- stack, to A5, or to the A5 world below or above it.
pub check_write_access_allowed :
    (get_global_var : ℕ → ℕ) (map : MemoryMap) (address : ℕ)
    → (check_write_access get_global_var map address).0 ≢ fatal
    → (is_logged map.log_write_regions address ≡ false)
      × (0x0100 ≤ address)
      × ((in_system_globals address ≡ true)
          ⊎ ((0x1C00 ≤ address) × (address < stack_start))
          ⊎ (address ≡ map.a5_world)
          ⊎ (within_region address (u32 (map.a5_world + 2 ^ 32 - map.below_a5_size)) map.a5_world
              ≡ true)
          ⊎ (within_region address map.a5_world (u32 (map.a5_world + map.above_a5_size)) ≡ true))
unfolding check_write_access
check_write_access_allowed get_global_var map address h = ground (arith, h)
