-- ===== src/Windows/Ops.antt =====
-- The operations on the list of windows, and the calls of the application.
use cyder.Base.{
  ℕ, ◌+◌, ◌*◌, ◌/◌, ◌%◌, Bool, true, not, ◌&&◌, ◌||◌, List, [], ◌∷◌, ◌++◌, ◌==◌, ltb, if◌then◌else◌,
  filter_if, length, ℤ, pos, negsuc, ◌+ℤ◌, ◌-ℤ◌, wrap16, bits16, Status, ok, err, crash, check,
  ◌>>=◌, ◌>>◌, Option, none, some,
}
use cyder.Events.Defs.{EventRecord, queue_window_activate, mouse_move, mouse_up}
use cyder.Graphics.Rect.{
  Rect, Point, offset_rect, move_rect, new_rect, normalize_rect, rect_width, rect_height, sub_point,
}
use cyder.Memory.Region.{size_t}
use cyder.Memory.Manager.Defs.{system_memory_size, heap_start, heap_end, u32}
use cyder.Graphics.Region.{Region, new_rect_region}
use cyder.Windows.Defs.{
  WindowRecord, WindowManager, store, record_size, hilited_offset, read_region, read_record,
  write_record, allocate_handle_to_region, create_title_handle, move_to_front, show_window,
  invalidate_window,
}

-- The loop of InvalidateWindows, from the front window on.
unfoldable pub invalidate_loop : ℕ → List ℕ → Region → WindowManager → Status WindowManager
unfolding invalidate_window
invalidate_loop now [] overlay m = ok m
invalidate_loop now (w ∷ ws) overlay m = do
  turn ← invalidate_window now w overlay m
  invalidate_loop now ws turn.0 turn.1

-- The menu bar covers all windows.
unfoldable pub menu_bar_region : WindowManager → Region
unfolding new_rect_region new_rect rect_width
menu_bar_region m = new_rect_region (new_rect (pos 0) (pos 0) (rect_width m.screen_bounds) (pos 20))

unfoldable pub invalidate_windows : ℕ → WindowManager → Status WindowManager
unfolding invalidate_loop menu_bar_region
invalidate_windows now m = invalidate_loop now m.window_list (menu_bar_region m) m

-- The loop that sets `hilited` of every window in the list.
unfoldable pub hilite_loop : ℕ → List ℕ → (ℕ → WindowRecord) → Status (ℕ → WindowRecord)
unfolding check
hilite_loop target [] records = ok records
hilite_loop target (w ∷ ws) records =
    check (ltb (w + hilited_offset) system_memory_size)
    >> hilite_loop target ws
        (store w (record (records w) { hilited = if target == w then 255 else 0 }) records)

unfoldable pub select_window : ℕ → ℕ → WindowManager → Status WindowManager
unfolding check hilite_loop move_to_front invalidate_windows queue_window_activate
select_window now target m =
    check (ltb (target + hilited_offset) system_memory_size)
    >> (if (m.records target).hilited == 255 then ok m else (do
      hilited ← hilite_loop target m.window_list m.records
      list ← move_to_front target m.window_list
      invalidate_windows now record m {
        records = hilited;
        window_list = list;
        event_manager = queue_window_activate now target true m.event_manager;
      }))

-- InitPort, and then the record: `screen` is the bounds of the screen's bits in the globals.
unfoldable pub new_window_record :
    Rect → List ℕ → Bool → Bool → ℤ → ℕ → WindowManager → Status (WindowRecord × WindowManager)
unfolding allocate_handle_to_region create_title_handle offset_rect normalize_rect
new_window_record bounds_rect title is_visible has_close window_definition_id reference_constant m =
    do
      let everything : Rect = record {
        top = negsuc 32767;
        left = negsuc 32767;
        bottom = pos 32767;
        right = pos 32767;
      }
      port_clip ← allocate_handle_to_region (new_rect_region everything) m
      port_visible ← allocate_handle_to_region (new_rect_region m.screen_bounds) (port_clip.1)
      let port_rect = normalize_rect bounds_rect
      visible ← allocate_handle_to_region (new_rect_region port_rect) (port_visible.1)
      clip ← allocate_handle_to_region (new_rect_region port_rect) (visible.1)
      title_handle ← create_title_handle title (clip.1)
      check (bits16 window_definition_id / 16 == 0)
      update ← allocate_handle_to_region (new_rect_region port_rect) (title_handle.1)
      ok (
        record {
          bounds =
              offset_rect m.screen_bounds (wrap16 (pos 0 -ℤ bounds_rect.left))
                (wrap16 (pos 0 -ℤ bounds_rect.top));
          port_rect = port_rect;
          visible_region = visible.0;
          clip_region = clip.0;
          window_kind = 8;
          is_visible = is_visible;
          hilited = 0;
          has_close = has_close;
          structure_region = 0;
          content_region = 0;
          update_region = update.0;
          window_definition_proc = bits16 window_definition_id % 16;
          title_handle = title_handle.0;
          title_width = wrap16 (pos (length title * 8));
          reference_constant = reference_constant;
        },
        update.1,
      )

-- Allocate of a record, with its CHECK.
unfoldable pub allocate_record : WindowManager → Status (ℕ × WindowManager)
unfolding check
allocate_record m =
    let offset = size_t (m.heap_offset + record_size) in
    check (ltb offset heap_end)
    >> ok (u32 (heap_start + m.heap_offset), record m { heap_offset = offset })

unfoldable pub new_window :
    ℕ → ℕ → Rect → List ℕ → Bool → Bool → ℤ → ℕ → ℕ → WindowManager → Status (ℕ × WindowManager)
unfolding allocate_record new_window_record write_record show_window select_window
    invalidate_windows
new_window now storage bounds_rect title is_visible has_close window_definition_id behind_window
      reference_constant m =
    do
      stored ← (if storage == 0 then allocate_record m else ok (storage, m))
      let window_storage = stored.0
      made ←
          new_window_record bounds_rect title is_visible has_close window_definition_id
            reference_constant (stored.1)
      m1 ← write_record window_storage made.0 (made.1)
      let m2 = record m1 { window_list = m1.window_list ++ window_storage ∷ [] }
      shown ← (if is_visible then show_window now window_storage m2 else ok m2)
      let m3 = record shown { the_port = window_storage }
      m4 ←
          (if not (behind_window == 0) || length m3.window_list == 1
            then select_window now window_storage m3
            else invalidate_windows now m3)
      ok (window_storage, m4)

unfoldable pub add_window_to_list_and_activate : ℕ → WindowManager → Status WindowManager
unfolding move_to_front
add_window_to_list_and_activate window_storage m = do
  list ← move_to_front window_storage (window_storage ∷ m.window_list)
  ok record m { window_list = list }

-- `front` of an empty list is undefined; it ends the process here.
unfoldable pub front : List ℕ → Status ℕ
front [] = crash
front (w ∷ ws) = ok w

unfoldable pub dispose_window : ℕ → ℕ → WindowManager → Status WindowManager
unfolding read_record front invalidate_windows queue_window_activate
dispose_window now ptr m = do
  _ ← read_record ptr m
  let list = filter_if (λ w. not (w == ptr)) m.window_list
  window ← front list
  invalidate_windows now record m {
    window_list = list;
    event_manager = queue_window_activate now window true m.event_manager;
  }

pub data MoveType : Type 0 where
  relative absolute : MoveType

unfoldable pub moved_bounds : MoveType → Point → Rect → Rect
unfolding move_rect offset_rect
moved_bounds absolute location bounds =
    move_rect bounds (wrap16 (pos 0 -ℤ location.x)) (wrap16 (pos 0 -ℤ location.y))
moved_bounds relative location bounds =
    offset_rect bounds (wrap16 (pos 0 -ℤ location.x)) (wrap16 (pos 0 -ℤ location.y))

unfoldable pub move_window : ℕ → ℕ → MoveType → Point → Bool → WindowManager → Status WindowManager
unfolding read_record write_record moved_bounds select_window invalidate_windows
move_window now ptr move_type location bring_to_front m = do
  window ← read_record ptr m
  let moved = record window { bounds = moved_bounds move_type location window.bounds }
  m1 ← write_record ptr moved m
  (if bring_to_front && window.hilited == 0
      then select_window now ptr m1
      else invalidate_windows now m1)

-- The loop of DragGrayRegion over the events that GetNextEvent gives: the offset of the end from
-- the start, and the outline; nothing while the button is down.
unfoldable pub drag_loop : Point → Point → Rect → List EventRecord → Option (Point × Rect)
unfolding new_rect rect_width rect_height sub_point
drag_loop start target_offset outline [] = none
drag_loop start target_offset outline (event ∷ events) =
    let at : Point = record { y = event.where_.y; x = event.where_.x } in
    let moved =
      new_rect (wrap16 (at.x +ℤ target_offset.x)) (wrap16 (at.y +ℤ target_offset.y))
        (rect_width outline) (rect_height outline) in
    let after_move = drag_loop start target_offset moved events in
    let after_other = drag_loop start target_offset outline events in
    if event.what == mouse_move
    then after_move
    else if event.what == mouse_up
    then some (sub_point at start, outline)
    else after_other

unfoldable pub drag_gray_region : Rect → Point → List EventRecord → Option (Point × Rect)
unfolding drag_loop
drag_gray_region bounding_box start events =
    drag_loop start
      record { y = wrap16 (bounding_box.top -ℤ start.y); x = wrap16 (bounding_box.left -ℤ start.x) }
      bounding_box events

-- DragWindow, for the events up to the release of the button.
unfoldable pub drag_window :
    ℕ → ℕ → Point → List EventRecord → WindowManager → Option (Status WindowManager)
unfolding drag_gray_region read_record read_region move_window
drag_window now ptr start events m =
    elim (read_record ptr m >>= λ window. read_region window.structure_region m) [
      | crash ↦ some crash
      | err code ↦ some (err code)
      | ok struct_region ↦ elim (drag_gray_region struct_region.rect start events) [
        | none ↦ none
        | some (delta, outline) ↦ some (move_window now ptr relative delta true m)
      ]
    ]
