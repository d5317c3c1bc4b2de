-- ===== src/Windows/Defs.antt =====
-- The state of WindowManager and its operations.
use cyder.Base.{
  ℕ, suc, ◌+◌, ◌-◌, ◌*◌, ltb, leb, ◌&&◌, not, length, check, ◌>>◌, ◌%◌, ◌^◌, Bool, true, false,
  ◌||◌, List, [], ◌∷◌, ◌==◌, if◌then◌else◌, any, ℤ, pos, negsuc, ◌+ℤ◌, ◌-ℤ◌, wrap16, Status, ok,
  crash, ◌>>=◌,
}
use cyder.Events.Defs.{EventManager, queue_window_update}
use cyder.Graphics.Rect.{Rect, offset_rect, inset_rect}
use cyder.Memory.Region.{size_t}
use cyder.Memory.Manager.Defs.{system_memory_size, heap_end, u32}
use cyder.Graphics.Region.{
  Region, write_lines, new_rect_region, subtract_region, union_region, intersect_region,
}

-- The fields of the record, and of its port, that the window manager reads or sets. `hilited` is
-- the byte that lies in the memory.
pub record WindowRecord : Type 0 where
  pub bounds : Rect
  pub port_rect : Rect
  pub visible_region : ℕ
  pub clip_region : ℕ
  pub window_kind : ℕ
  pub is_visible : Bool
  pub hilited : ℕ
  pub has_close : Bool
  pub structure_region : ℕ
  pub content_region : ℕ
  pub update_region : ℕ
  pub window_definition_proc : ℕ
  pub title_handle : ℕ
  pub title_width : ℤ
  pub reference_constant : ℕ

-- A handle is given by its number from 1 on: the n-th is at kHeapStart + 4 * (n - 1), and 0 stands
-- for none.
pub record WindowManager : Type 0 where
  pub window_list : List ℕ
  pub records : ℕ → WindowRecord
  pub regions : ℕ → Region
  pub titles : ℕ → List ℕ
  pub next_handle : ℕ
  pub heap_offset : ℕ
  pub event_manager : EventManager
  pub screen_bounds : Rect
  pub the_port : ℕ

abbrev pub store {ℓ} : {A : Type ℓ} → ℕ → A → (ℕ → A) → ℕ → A
store p a f q = if q == p then a else f q

-- A bool is read by its lowest bit, and written as the byte 0 or 1.
unfoldable pub bool_byte : WindowRecord → WindowRecord
bool_byte w = record w { hilited = w.hilited % 2 }

-- WindowRecord::fixed_size, and the offset of `hilited`.
abbrev pub record_size : ℕ
record_size = 156

abbrev pub hilited_offset : ℕ
hilited_offset = 111

-- ReadType and WriteType of a WindowRecord, each under a MUST or a CHECK_OK: a record that is not
-- within the memory ends the process.
unfoldable pub read_record : ℕ → WindowManager → Status WindowRecord
unfolding bool_byte check
read_record ptr m =
    check (leb (ptr + record_size) system_memory_size) >> ok (bool_byte (m.records ptr))

unfoldable pub write_record : ℕ → WindowRecord → WindowManager → Status WindowManager
unfolding check
write_record ptr w m =
    check (leb (ptr + record_size) system_memory_size)
    >> ok (record m { records = store ptr w m.records })

-- AllocateHandle, with its two CHECKs: the end of the heap, and the number of handles.
unfoldable pub allocate_handle_number : ℕ → WindowManager → Status (ℕ × WindowManager)
unfolding check
allocate_handle_number size m =
    let offset = size_t (m.heap_offset + size) in
    check (ltb offset heap_end && leb m.next_handle 1024)
    >> ok (m.next_handle, record m { next_handle = suc m.next_handle; heap_offset = offset })

-- The size that is asked for a region: its data's is of int16_t.
unfoldable pub region_size : Region → ℕ
unfolding write_lines wrap16
region_size region = elim (wrap16 (pos (2 * length (write_lines region.lines)))) [
  | pos n ↦ 10 + n
  | negsuc n ↦ u32 (2 ^ 32 + 10 - suc n)
]

-- AllocateHandleToRegion.
unfoldable pub allocate_handle_to_region : Region → WindowManager → Status (ℕ × WindowManager)
unfolding allocate_handle_number region_size
allocate_handle_to_region region m = allocate_handle_number (region_size region) m >>= λ made.
    ok (made.0, record (made.1) { regions = store made.0 region (made.1).regions })

-- The region behind a handle; GetPtrForHandle CHECKs that the handle is in use.
unfoldable pub read_region : ℕ → WindowManager → Status Region
unfolding check
read_region handle m =
    check (not (handle == 0) && ltb handle m.next_handle) >> ok (m.regions handle)

-- create_title_handle, with the CHECK on the length of the title.
unfoldable pub create_title_handle : List ℕ → WindowManager → Status (ℕ × WindowManager)
unfolding allocate_handle_number check
create_title_handle title m = allocate_handle_number (length title + 1) m >>= λ made.
    check (ltb (length title) 255)
    >> ok (made.0, record (made.1) { titles = store made.0 title (made.1).titles })

-- The variation is of uint8_t; one that is not listed is NOTREACHED.
unfoldable pub has_title_bar : WindowRecord → Status Bool
has_title_bar w =
    let variation_type = w.window_definition_proc % 2 ^ 8 in
    if variation_type == 0
      || variation_type == 4
      || variation_type == 5
      || variation_type == 8
      || variation_type == 12
    then ok true
    else if variation_type == 3 || variation_type == 2 || variation_type == 1
    then ok false
    else crash

unfoldable pub calculate_go_away_rect : Rect → Rect
unfolding inset_rect
calculate_go_away_rect title_rect =
    inset_rect (record title_rect { right = wrap16 (title_rect.left +ℤ pos 17) }) (pos 3) (pos 3)

-- The rectangles that UpdateContentAndStructureRegions computes, in global coordinates.
unfoldable pub content_rect : WindowRecord → Rect
unfolding offset_rect
content_rect w =
    offset_rect w.port_rect (wrap16 (pos 0 -ℤ w.bounds.left)) (wrap16 (pos 0 -ℤ w.bounds.top))

unfoldable pub structure_rect : Bool → WindowRecord → Rect
unfolding content_rect inset_rect
structure_rect titled w =
    let frame = inset_rect (content_rect w) (negsuc 0) (negsuc 0) in
    if titled then record frame { top = wrap16 (frame.top -ℤ pos 17) } else frame

-- MoveToFront, on the list. `splice` takes the first window that is found.
unfoldable pub remove_first : ℕ → List ℕ → List ℕ
remove_first ptr [] = []
remove_first ptr (w ∷ ws) = if ptr == w then ws else w ∷ remove_first ptr ws

unfoldable pub move_to_front : ℕ → List ℕ → Status (List ℕ)
unfolding remove_first
move_to_front ptr [] = crash
move_to_front ptr (w ∷ ws) =
    if ptr == w
    then ok (w ∷ ws)
    else if any (◌==◌ ptr) ws
    then ok (ptr ∷ w ∷ remove_first ptr ws)
    else crash

unfoldable pub get_front_window : WindowManager → ℕ
get_front_window m = elim m.window_list [ [] ↦ 0 | w ∷ ws ↦ w ]

unfoldable pub show_window : ℕ → ℕ → WindowManager → Status WindowManager
unfolding queue_window_update read_record write_record
show_window now ptr m = do
  window ← read_record ptr m
  write_record ptr window (record m { event_manager = queue_window_update now ptr m.event_manager })

unfoldable pub update_content_and_structure_regions :
    WindowRecord → WindowManager → Status (WindowRecord × WindowManager)
unfolding has_title_bar allocate_handle_to_region
update_content_and_structure_regions w m = do
  titled ← has_title_bar w
  content ← allocate_handle_to_region (new_rect_region (content_rect w)) m
  structure ← allocate_handle_to_region (new_rect_region (structure_rect titled w)) (content.1)
  ok (record w { content_region = content.0; structure_region = structure.0 }, structure.1)

-- The regions of one window, below the overlay of those in front of it.
unfoldable pub updated_visible : Region → Region → Region
updated_visible content overlay = subtract_region content overlay

unfoldable pub updated_update : Region → Region → Region → Region
updated_update visible current_visible update =
    let dirty = subtract_region visible current_visible in
    intersect_region (union_region update dirty) visible

-- The rest of a turn, from the regions that are read: the overlay after it, and the new regions.
unfoldable pub finish_window :
    ℕ
    → ℕ
    → Region
    → Region
    → Region
    → Region
    → Region
    → WindowRecord
    → WindowManager
    → Status (Region × WindowManager)
unfolding write_record allocate_handle_to_region queue_window_update updated_visible updated_update
finish_window now ptr overlay current_visible content current_update structure the_window m = do
  let visible = updated_visible content overlay
  visible_handle ← allocate_handle_to_region visible m
  update_handle ←
      allocate_handle_to_region (updated_update visible current_visible current_update)
        (visible_handle.1)
  refreshed ←
      write_record ptr
        (record the_window { visible_region = visible_handle.0; update_region = update_handle.0 })
        (update_handle.1)
  ok (
    union_region overlay structure,
    record refreshed { event_manager = queue_window_update now ptr refreshed.event_manager },
  )

-- One turn of the loop of InvalidateWindows: the overlay after it.
unfoldable pub invalidate_window : ℕ → ℕ → Region → WindowManager → Status (Region × WindowManager)
unfolding update_content_and_structure_regions read_record read_region finish_window
invalidate_window now ptr overlay m = do
  window ← read_record ptr m
  updated ← update_content_and_structure_regions window m
  let the_window = updated.0
  current_visible ← read_region the_window.visible_region (updated.1)
  content ← read_region the_window.content_region (updated.1)
  current_update ← read_region the_window.update_region (updated.1)
  structure ← read_region the_window.structure_region (updated.1)
  finish_window now ptr overlay current_visible content current_update structure the_window
      (updated.1)
