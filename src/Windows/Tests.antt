-- ===== src/Windows/Tests.antt =====
-- The theorems on windows at a screen with two windows, the one at 1000 in front.
use cyder.Base.{
  ℕ, ◌≡◌, refl, true, false, not, ◌&&◌, ◌||◌, [], ◌∷◌, any, ok, crash, ℤ, pos, negsuc, arith, some,
  if◌then◌else◌, ◌==◌, Status, ◌<◌, ◌^◌, wrap16, ◌+ℤ◌, ◌-ℤ◌, err, Bool-cases, inl, inr, ==_iff,
  subst, sym,
}
use cyder.Trap.Stack.{ok_inj}
use cyder.Windows.Hit.{Outcome, get_window_at_lem}
use cyder.Events.Defs.{EventManager, EventRecord, mouse_move, mouse_up}
use cyder.Windows.Drag.{place_of, drag_gray_region_ends}
use cyder.Graphics.Rect.{Rect, Point, sub_point, new_rect, rect_width}
use cyder.Graphics.Region.{subtract_region, intersect_region, union_region, new_rect_region}
use cyder.Graphics.Region.Lines.{in_region}
use cyder.Windows.Defs.{WindowRecord, WindowManager, has_title_bar, content_rect, structure_rect}
use cyder.Windows.Ops.{invalidate_windows, select_window, drag_gray_region, menu_bar_region}
use cyder.Windows.Places.{get_window_at, title_part, drag}
use cyder.Windows.Front.{is_in}
use cyder.Windows.Refresh.{IsReady}
use cyder.Windows.Select.{Selected, select_window-Selected}
use cyder.Windows.Visible.{visible_pixels, update_pixels}
use cyder.Windows.Overlay.{IsShown, HasArea, in_content, in_frame}

abbrev rect : ℤ → ℤ → ℤ → ℤ → Rect
rect top left bottom right = record { top = top; left = left; bottom = bottom; right = right }

-- A window of 100 by 80 at a place, with its title bar.
abbrev window_at : ℤ → ℤ → WindowRecord
window_at x y = record {
  bounds = rect y x (pos 342) (pos 512);
  port_rect = rect (pos 0) (pos 0) (pos 80) (pos 100);
  visible_region = 1;
  clip_region = 1;
  window_kind = 8;
  is_visible = true;
  hilited = 0;
  has_close = true;
  structure_region = 1;
  content_region = 1;
  update_region = 1;
  window_definition_proc = 0;
  title_handle = 1;
  title_width = pos 0;
  reference_constant = 0;
}

abbrev no_events : EventManager
no_events = record {
  activate_events = [];
  input_events = [];
  update_events = [];
  mouse_move_enabled = false;
  is_shutting_down = false;
}

abbrev two_windows : WindowManager
two_windows = record {
  window_list = 1000 ∷ 2000 ∷ [];
  records = λ ptr.
      if ptr == 1000 then window_at (negsuc 59) (negsuc 59) else window_at (negsuc 99) (negsuc 99);
  regions = λ handle. new_rect_region (rect (pos 0) (pos 0) (pos 80) (pos 100));
  titles = λ handle. [];
  next_handle = 5;
  heap_offset = 4096;
  event_manager = no_events;
  screen_bounds = rect (pos 0) (pos 0) (pos 342) (pos 512);
  the_port = 0;
}

front-IsReady : IsReady two_windows 1000
unfolding has_title_bar
front-IsReady = record {
  titled = true;
  known = refl;
  visible_old = omega arith;
  update_old = omega arith;
}

back-IsReady : IsReady two_windows 2000
unfolding has_title_bar
back-IsReady = record {
  titled = true;
  known = refl;
  visible_old = omega arith;
  update_old = omega arith;
}

IsReady-listed : (q : ℕ) → is_in q (1000 ∷ 2000 ∷ []) ≡ true → IsReady two_windows q
unfolding any has_title_bar
IsReady-listed q h = elim (Bool-cases (q == 1000)) [
  | inl hit ↦
      subst (IsReady two_windows) {x = 1000} {y = q} (sym ((==_iff q 1000).0 hit)) front-IsReady
  | inr miss ↦ subst (IsReady two_windows) {x = 2000} {y = q} (ground (arith, h, miss)) back-IsReady
]

abbrev result_of : Status WindowManager → WindowManager
result_of (ok m) = m
result_of (err c) = two_windows
result_of crash = two_windows

abbrev invalidated : WindowManager
unfolding invalidate_windows
invalidated = result_of (invalidate_windows 7 two_windows)

invalidate_example : invalidate_windows 7 two_windows ≡ ok invalidated
unfolding invalidate_windows invalidated subtract_region content_rect ◌+ℤ◌ ◌-ℤ◌ intersect_region
    union_region structure_rect
invalidate_example = refl

area_of :
    (top left bottom right : ℕ)
    → top < bottom
    → left < right
    → bottom < 2 ^ 15
    → right < 2 ^ 15
    → HasArea (rect (pos top) (pos left) (pos bottom) (pos right))
area_of top left bottom right h w b r = record {
  lines = omega (arith, h);
  columns = omega (arith, w);
  top16 = (omega arith, omega (arith, h, b));
  left16 = (omega arith, omega (arith, w, r));
}

front-IsShown : IsShown two_windows 1000
unfolding content_rect structure_rect has_title_bar wrap16 ◌+ℤ◌ ◌-ℤ◌
front-IsShown = record {
  ready = front-IsReady;
  content_area = area_of 60 60 140 160 (omega arith) (omega arith) (omega arith) (omega arith);
  structure_area = λ titled e.
      subst (λ u. HasArea (structure_rect u (two_windows.records 1000))) {x = true} {y = titled}
        (ok_inj e) (area_of 42 59 141 161 (omega arith) (omega arith) (omega arith) (omega arith));
}

back-IsShown : IsShown two_windows 2000
unfolding content_rect structure_rect has_title_bar wrap16 ◌+ℤ◌ ◌-ℤ◌
back-IsShown = record {
  ready = back-IsReady;
  content_area = area_of 100 100 180 200 (omega arith) (omega arith) (omega arith) (omega arith);
  structure_area = λ titled e.
      subst (λ u. HasArea (structure_rect u (two_windows.records 2000))) {x = true} {y = titled}
        (ok_inj e) (area_of 82 99 181 201 (omega arith) (omega arith) (omega arith) (omega arith));
}

bar_area : HasArea (new_rect (pos 0) (pos 0) (rect_width two_windows.screen_bounds) (pos 20))
unfolding new_rect rect_width wrap16 ◌+ℤ◌ ◌-ℤ◌
bar_area = area_of 0 0 20 512 (omega arith) (omega arith) (omega arith) (omega arith)

visible_pixels_example :
    in_region (pos 150) (pos 150) (invalidated.regions (invalidated.records 2000).visible_region)
    ≡ in_content (pos 150) (pos 150) (two_windows.records 2000)
      && not (
          in_region (pos 150) (pos 150) (menu_bar_region two_windows)
          || any (λ q. in_frame (pos 150) (pos 150) (two_windows.records q)) (1000 ∷ []))
unfolding any
visible_pixels_example =
    visible_pixels 7 (pos 150) (pos 150) 2000 (1000 ∷ []) [] two_windows invalidated refl refl refl
      back-IsShown (front-IsShown, (back-IsShown, tt)) bar_area invalidate_example

update_pixels_example :
    in_region (pos 170) (pos 150) (invalidated.regions (invalidated.records 2000).update_region)
    ≡ (in_region (pos 170) (pos 150) (two_windows.regions 1)
        || in_region
            (pos 170)
            (pos 150)
            (invalidated.regions (invalidated.records 2000).visible_region)
          && not (in_region (pos 170) (pos 150) (two_windows.regions 1)))
      && in_region
          (pos 170)
          (pos 150)
          (invalidated.regions (invalidated.records 2000).visible_region)
unfolding any new_rect_region
update_pixels_example =
    update_pixels 7 (pos 170) (pos 150) 2000 (1000 ∷ []) [] two_windows invalidated refl refl refl
      back-IsShown (front-IsShown, (back-IsShown, tt)) bar_area
      ((omega arith, (omega arith, tt)), ((omega arith, omega arith, tt), (tt, tt)))
      ((omega arith, (omega arith, tt)), ((omega arith, omega arith, tt), (tt, tt)))
      invalidate_example

abbrev selected : WindowManager
unfolding select_window
selected = result_of (select_window 7 2000 two_windows)

selected_end : select_window 7 2000 two_windows ≡ ok selected
unfolding select_window selected any subtract_region content_rect ◌+ℤ◌ ◌-ℤ◌ intersect_region
    union_region structure_rect
selected_end = refl

select_window-Selected_example : Selected 7 2000 two_windows selected
unfolding any
select_window-Selected_example =
    select_window-Selected 7 2000 two_windows selected (λ h. ground (arith, h)) refl IsReady-listed
      selected_end

abbrev selected_twice : WindowManager
unfolding select_window
selected_twice = result_of (select_window 9 2000 selected)

-- A click in the title bar of the window at 2000.
abbrev title_point : Point
title_point = record { y = pos 90; x = pos 190 }

get_window_at_example : Outcome title_point 5 selected (2000 ∷ 1000 ∷ []) drag 2000
unfolding get_window_at select_window selected any wrap16 title_part subtract_region content_rect
    ◌+ℤ◌ ◌-ℤ◌ intersect_region union_region structure_rect
get_window_at_example = get_window_at_lem title_point 5 selected drag 2000 refl

abbrev event_at : ℕ → ℤ → ℤ → EventRecord
event_at what x y = record {
  what = what;
  message = 0;
  when = 0;
  where_ = record { y = y; x = x };
  modifiers = 0;
}

drag_gray_region_ends_example :
    (r : Rect) × (drag_gray_region
        (rect (pos 60) (pos 60) (pos 140) (pos 160))
        (record { y = pos 50; x = pos 70 })
        (event_at mouse_move (pos 90) (pos 80) ∷ event_at mouse_up (pos 95) (pos 85) ∷ [])
      ≡ some (
        sub_point
            (place_of (event_at mouse_up (pos 95) (pos 85)))
            (record { y = pos 50; x = pos 70 }),
        r,
      ))
drag_gray_region_ends_example =
    drag_gray_region_ends (rect (pos 60) (pos 60) (pos 140) (pos 160))
      (record { y = pos 50; x = pos 70 }) (event_at mouse_move (pos 90) (pos 80) ∷ [])
      (event_at mouse_up (pos 95) (pos 85)) [] (refl, tt) refl
