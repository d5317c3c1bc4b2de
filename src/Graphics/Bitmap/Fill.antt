-- ===== src/Graphics/Bitmap/Fill.antt =====
-- FillRect against the pixels of the rectangle that the clip region holds.
use cyder.Base.{
  ℕ, zero, suc, ◌+◌, ◌%◌, ◌≡◌, refl, sym, ap, ◌∙◌, Bool, false, ◌&&◌, ◌||◌, List, [], arith, ℤ, pos,
  pos_part, ltb_ℤ, leb_ℤ, eqb_ℤ, ◌≤ℤ◌, ◌+ℤ◌, ◌-ℤ◌, wrap16_id, IsInt16, eq_of_parts, +ℤ_parts,
  -ℤ_parts,
}
use cyder.Graphics.Rect.{Rect, rect_height, point_in_rect}
use cyder.Graphics.Rows.{Range}
use cyder.Graphics.Rows.Meaning.{in_row}
use cyder.Graphics.Region.{Scanline, Region}
use cyder.Graphics.Region.Lines.{row_at, in_region}
use cyder.Graphics.Bitmap.{
  Byte, FillMode, BitmapImage, rotate_byte_right, try_advance_scanline, fill_row_clipped,
  fill_rect_loop, fill_rect,
}
use cyder.Graphics.Bitmap.Cursor.{try_advance-row_at, row_at-try_advance}
use cyder.Graphics.Bitmap.Area.{
  OnScreen, Drawn, redraw, nothing_Drawn, both_Drawn, OnScreen-Drawn, in_clip_line, line_step,
}

-- The pattern of a line: it is counted from the top of the rectangle, and turned to its left.
unfoldable pub pattern_of_line : Rect → (ℕ → Byte) → ℕ → Byte
unfolding rotate_byte_right ◌-ℤ◌
pattern_of_line rect pattern y =
    rotate_byte_right (pattern (pos_part (pos y -ℤ rect.top) % 8)) (pos_part rect.left % 8)

-- The lines from one on, up to another, counted from the top of a rectangle.
abbrev in_lines : ℤ → ℕ → ℕ → ℕ → Bool
in_lines top from to y = leb_ℤ (top +ℤ pos from) (pos y) && ltb_ℤ (pos y) (top +ℤ pos to)

next_line :
    (top : ℤ) (row left y : ℕ) (c : Bool)
    → eqb_ℤ (pos y) (top +ℤ pos row) && c || in_lines top (suc row) (suc row + left) y && c
      ≡ in_lines top row (row + suc left) y && c
next_line top row left y c = ground (
  arith,
  +ℤ_parts top (pos row),
  +ℤ_parts top (pos (suc row)),
  +ℤ_parts top (pos (row + suc left)),
)

no_lines : (top : ℤ) (row y : ℕ) (c : Bool) → in_lines top row (row + 0) y && c ≡ false
no_lines top row y c = ground (arith, +ℤ_parts top (pos row))

apart_lines :
    (top : ℤ) (row left y : ℕ) (c : Bool)
    → (eqb_ℤ (pos y) (top +ℤ pos row) && c) && (in_lines top (suc row) (suc row + left) y && c)
      ≡ false
apart_lines top row left y c = ground (arith, +ℤ_parts top (pos row), +ℤ_parts top (pos (suc row)))

line_number :
    (top y0 : ℤ) (row y : ℕ) → y0 ≡ top +ℤ pos row → y0 ≡ pos y → pos_part (pos y -ℤ top) ≡ row
line_number top y0 row y e h = ground (arith, e, h, +ℤ_parts top (pos row), -ℤ_parts (pos y) top)

line_fits :
    (top : ℤ) (row left : ℕ)
    → IsInt16 top
    → top +ℤ pos (row + suc left) ≤ℤ pos 32768
    → IsInt16 (top +ℤ pos row)
line_fits top row left i h =
    ground (arith, i, h, +ℤ_parts top (pos row), +ℤ_parts top (pos (row + suc left)))

bottom_same :
    (top : ℤ) (row left : ℕ)
    → top +ℤ pos (row + suc left) ≤ℤ pos 32768
    → top +ℤ pos (suc row + left) ≤ℤ pos 32768
bottom_same top row left h =
    omega (arith, h, +ℤ_parts top (pos (suc row + left)), +ℤ_parts top (pos (row + suc left)))

next_is_later : (top : ℤ) (row : ℕ) (y : ℤ) → top +ℤ pos (suc row) ≤ℤ y → top +ℤ pos row ≤ℤ y
next_is_later top row y h = omega (arith, h, +ℤ_parts top (pos (suc row)), +ℤ_parts top (pos row))

loop_Drawn :
    (mode : FillMode) (pattern : ℕ → Byte) (rect : Rect) (left row : ℕ) (lines : List Scanline)
    (scanline : List Range) (b : BitmapImage)
    → OnScreen b
    → IsInt16 rect.top
    → rect.top +ℤ pos (row + left) ≤ℤ pos 32768
    → ((y : ℤ)
        → rect.top +ℤ pos row ≤ℤ y
        → row_at y scanline lines ≡ row_at y [] b.clip_region.lines)
    → Drawn mode
        (pattern_of_line rect pattern)
        (λ x y.
          in_lines rect.top row (row + left) y
          && in_clip_line b.clip_region rect.left rect.right x y)
        b
        (fill_rect_loop left row rect (pos_part rect.left % 8) pattern mode lines scanline b)
unfolding fill_rect_loop pattern_of_line
loop_Drawn mode pattern rect zero row lines scanline b o t f cursor =
    nothing_Drawn mode _ _ b
      (λ x y. no_lines rect.top row y (in_clip_line b.clip_region rect.left rect.right x y))
loop_Drawn mode pattern rect (suc left) row lines scanline b o t f cursor =
    let y0 = rect.top +ℤ pos row in
    let fits = wrap16_id y0 (line_fits rect.top row left t f) in
    let swatch = rotate_byte_right (pattern (row % 8)) (pos_part rect.left % 8) in
    let moved = try_advance_scanline y0 lines scanline in
    let here : moved.1 ≡ row_at y0 [] b.clip_region.lines =
      try_advance-row_at y0 lines scanline ∙ cursor y0 (omega arith) in
    let first : Drawn mode (pattern_of_line rect pattern)
        (λ x y. eqb_ℤ (pos y) y0 && in_clip_line b.clip_region rect.left rect.right x y) b
        (fill_row_clipped y0 rect.left rect.right moved.1 swatch mode b) =
      rw here (
        line_step mode (pattern_of_line rect pattern) rect.left rect.right y0 swatch b o (λ y e.
          ap (λ r. rotate_byte_right (pattern (r % 8)) (pos_part rect.left % 8))
            (line_number rect.top y0 row y refl e))) in
    let later =
      loop_Drawn mode pattern rect left (suc row) moved.0 moved.1 first.after
        (OnScreen-Drawn first o) t (bottom_same rect.top row left f)
        (λ y h.
          let from = next_is_later rect.top row y h in
          row_at-try_advance y0 y lines scanline from
          ∙ cursor y from
          ∙ ap (λ (c : Region). row_at y [] c.lines) (sym first.same_frame.3)) in
    let later' =
      redraw
        (λ x y.
          ap
            (λ c.
              in_lines rect.top (suc row) (suc row + left) y
              && in_clip_line c rect.left rect.right x y)
            first.same_frame.3)
        later in
    rw fits (
      redraw
        (λ x y. next_line rect.top row left y (in_clip_line b.clip_region rect.left rect.right x y))
        (both_Drawn
          (λ b'.
            fill_rect_loop left (suc row) rect (pos_part rect.left % 8) pattern mode moved.0 moved.1
              b')
          (λ x y.
            apart_lines rect.top row left y (in_clip_line b.clip_region rect.left rect.right x y))
          first later'))

-- The pixels of a rectangle that lie in the clip region.
abbrev pub in_clipped_rect : Rect → Region → ℕ → ℕ → Bool
unfolding point_in_rect
in_clipped_rect rect clip x y =
    point_in_rect (record { y = pos y; x = pos x }) rect
    && (leb_ℤ clip.rect.top (pos y) && ltb_ℤ (pos y) clip.rect.bottom)
    && in_region (pos x) (pos y) clip

first_line : (top : ℤ) → top +ℤ pos 0 ≡ top
first_line top = eq_of_parts (top +ℤ pos 0) top (omega (arith, +ℤ_parts top (pos 0)))

height_ends : (top bottom : ℤ) → top ≤ℤ bottom → top +ℤ pos (0 + pos_part (bottom -ℤ top)) ≡ bottom
height_ends top bottom h =
    eq_of_parts (top +ℤ pos (0 + pos_part (bottom -ℤ top))) bottom
      (ground (arith, h, +ℤ_parts top (pos (0 + pos_part (bottom -ℤ top))), -ℤ_parts bottom top))

reorder_tests :
    (t b c l r i : Bool) → (t && b) && (c && (l && r && i)) ≡ (l && r && t && b) && c && i
reorder_tests t b c l r i = ground arith

-- FillRect, for a clip region on the screen and a rectangle with int16_t lines that has a
-- height of at least zero that fits int16_t, succeeds, keeps the frame of the bitmap, and sets
-- exactly the pixels that are in the rectangle, in the clip region and between the lines of its
-- bounding rectangle, each from the rotated pattern of its line and by the mode.
pub fill_rect-Drawn :
    (rect : Rect) (pattern : ℕ → Byte) (mode : FillMode) (b : BitmapImage)
    → OnScreen b
    → IsInt16 rect.top
    → IsInt16 rect.bottom
    → rect.top ≤ℤ rect.bottom
    → IsInt16 (rect.bottom -ℤ rect.top)
    → Drawn mode
        (pattern_of_line rect pattern)
        (in_clipped_rect rect b.clip_region)
        b
        (fill_rect rect pattern mode b)
unfolding fill_rect rect_height in_clipped_rect point_in_rect
fill_rect-Drawn rect pattern mode b o t u h i =
    let ends =
      ap (λ z. rect.top +ℤ pos (0 + pos_part z)) (wrap16_id (rect.bottom -ℤ rect.top) i)
      ∙ height_ends rect.top rect.bottom h in
    redraw
      (λ x y.
        rw (ends, first_line rect.top)
          (reorder_tests (leb_ℤ rect.top (pos y)) (ltb_ℤ (pos y) rect.bottom)
            (leb_ℤ b.clip_region.rect.top (pos y) && ltb_ℤ (pos y) b.clip_region.rect.bottom)
            (leb_ℤ rect.left (pos x)) (ltb_ℤ (pos x) rect.right)
            (in_row (pos x) (row_at (pos y) [] b.clip_region.lines))))
      (loop_Drawn mode pattern rect (pos_part (rect_height rect)) 0 b.clip_region.lines [] b o t
        (rw ends (omega (arith, u))) (λ y _. refl))
