-- ===== src/Windows/Drag.antt =====
-- The end of a drag.
use cyder.Base.{
  ◌≡◌, refl, false, List, [], ◌∷◌, ◌++◌, ◌==◌, All, Bool-cases, inl, inr, some, ◌+ℤ◌, wrap16,
}
use cyder.Events.Defs.{EventRecord, mouse_move, mouse_up}
use cyder.Graphics.Rect.{Rect, Point, sub_point, new_rect, rect_width, rect_height}
use cyder.Windows.Ops.{drag_loop, drag_gray_region}

-- The button is not released.
abbrev pub Holds : EventRecord → Type 0
Holds event = (event.what == mouse_up) ≡ false

abbrev pub place_of : EventRecord → Point
place_of event = record { y = event.where_.y; x = event.where_.x }

drag_loop_ends :
    (start offset : Point) (outline : Rect) (before : List EventRecord) (up : EventRecord)
    (rest : List EventRecord)
    → All Holds before
    → up.what ≡ mouse_up
    → (r : Rect) × (drag_loop start offset outline (before ++ up ∷ rest)
        ≡ some (sub_point (place_of up) start, r))
unfolding drag_loop
drag_loop_ends start offset outline [] up rest h u = (outline, rw u refl)
drag_loop_ends start offset outline (event ∷ before) up rest h u =
    elim (Bool-cases (event.what == mouse_move)) [
      | inl moves ↦
          let r =
            drag_loop_ends start offset
              (new_rect (wrap16 (event.where_.x +ℤ offset.x)) (wrap16 (event.where_.y +ℤ offset.y))
                (rect_width outline) (rect_height outline))
              before up rest h.1 u in
          (r.0, rw moves r.1)
      | inr other ↦
          let r = drag_loop_ends start offset outline before up rest h.1 u in
          (r.0, rw (other, h.0) r.1)
    ]

-- DragGrayRegion returns at the first event that releases the button, whatever events came
-- before it, with the distance from the start to the place of the release.
pub drag_gray_region_ends :
    (box : Rect) (start : Point) (before : List EventRecord) (up : EventRecord)
    (rest : List EventRecord)
    → All Holds before
    → up.what ≡ mouse_up
    → (r : Rect) × (drag_gray_region box start (before ++ up ∷ rest)
        ≡ some (sub_point (place_of up) start, r))
unfolding drag_gray_region
drag_gray_region_ends box start before up rest h u = drag_loop_ends start _ box before up rest h u
