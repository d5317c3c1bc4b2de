-- ===== src/Windows/Places.antt =====
-- GetWindowAt: the part of a window that has a point.
use cyder.Base.{ℕ, List, [], ◌∷◌, if◌then◌else◌, pos, ◌+ℤ◌, wrap16, Status, ok, ◌>>=◌}
use cyder.Graphics.Rect.{Point, point_in_rect}
use cyder.Windows.Defs.{
  WindowRecord, WindowManager, read_region, read_record, has_title_bar, calculate_go_away_rect,
}

pub data RegionType : Type 0 where
  none_type drag content close : RegionType

-- The part of a title bar that a point is in.
unfoldable pub title_part : Point → WindowRecord → WindowManager → Status RegionType
unfolding read_region calculate_go_away_rect point_in_rect
title_part mouse w m = do
  structure ← read_region w.structure_region m
  let title_rect = record structure.rect { bottom = wrap16 (structure.rect.top +ℤ pos 17) }
  ok (
      if point_in_rect mouse (calculate_go_away_rect title_rect)
      then close
      else if point_in_rect mouse title_rect
      then drag
      else none_type)

-- The part of one window that a point is in: the title bar's is looked at first.
unfoldable pub window_part : Point → WindowRecord → WindowManager → Status RegionType
unfolding has_title_bar read_region calculate_go_away_rect point_in_rect
window_part mouse w m = do
  titled ← has_title_bar w
  in_title ← (if titled then title_part mouse w m else ok none_type)
  elim in_title [
    | close ↦ ok close
    | drag ↦ ok drag
    | content ↦ ok content
    | none_type ↦ do
      body ← read_region w.content_region m
      ok (if point_in_rect mouse body.rect then content else none_type)
  ]

-- The part of the window at a pointer.
unfoldable pub part_at : Point → WindowManager → ℕ → Status RegionType
unfolding window_part read_record
part_at mouse m ptr = read_record ptr m >>= λ w. window_part mouse w m

-- The loop of GetWindowAt; `target_window` is what the caller's variable holds.
unfoldable pub window_at_loop : Point → ℕ → List ℕ → WindowManager → Status (RegionType × ℕ)
unfolding part_at
window_at_loop mouse target_window [] m = ok (none_type, target_window)
window_at_loop mouse target_window (w ∷ ws) m = do
  part ← part_at mouse m w
  let later = window_at_loop mouse target_window ws m
  elim part [
    | none_type ↦ later
    | close ↦ ok (close, target_window)
    | drag ↦ ok (drag, w)
    | content ↦ ok (content, w)
  ]

unfoldable pub get_window_at : Point → ℕ → WindowManager → Status (RegionType × ℕ)
unfolding window_at_loop
get_window_at mouse target_window m = window_at_loop mouse target_window m.window_list m
