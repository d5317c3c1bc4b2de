-- ===== src/Graphics/Bitmap/Frame.antt =====
-- FrameRect with the mode XOr, which draws and takes away the outline of a drag.
use cyder.Base.{
  ℕ, zero, suc, ◌*◌, ◌<◌, ◌≡◌, refl, ap, ◌∙◌, Bool, List, [], arith, ok, ◌>>=◌, ℤ, pos, pos_part,
  ◌+ℤ◌, ◌-ℤ◌, +ℤ_parts, -ℤ_parts, wrap16, wrap16_id, IsInt16, ◌≤ℤ◌, ◌<ℤ◌,
}
use cyder.Graphics.Rect.{Rect, pixel_width_to_bytes}
use cyder.Graphics.Rows.{Range}
use cyder.Graphics.Region.{Region, Scanline}
use cyder.Graphics.Region.Lines.{row_at}
use cyder.Graphics.Bitmap.{
  Byte, x_or, BitmapImage, xor, try_advance_scanline, fill_row_clipped, frame_swatch, frame_loop,
  frame_rect,
}
use cyder.Graphics.Bitmap.Strides.{bit_of}
use cyder.Graphics.Bitmap.Cursor.{try_advance-row_at, row_at-try_advance}
use cyder.Graphics.Bitmap.Area.{OnScreen}
use cyder.Graphics.Bitmap.Turned.{SameFrame, Turned, row_mask, row_Turned, xor_twice, both_Turned}

-- The pixels that the rows of the frame turn over, from one on.
loop_mask : BitmapImage → ℕ → ℤ → Rect → (ℤ → Byte) → ℕ → ℕ → Bool
unfolding frame_swatch
loop_mask b0 zero row rect pattern x y =
    let last = rect.bottom -ℤ pos 1 in
    row_mask b0 last rect.left rect.right (frame_swatch pattern rect last) x y
loop_mask b0 (suc left) row rect pattern x y =
    let swatch = frame_swatch pattern rect row in
    xor (row_mask b0 row rect.left (wrap16 (rect.left +ℤ pos 1)) swatch x y) (
      xor (row_mask b0 row (wrap16 (rect.right -ℤ pos 1)) rect.right swatch x y)
        (loop_mask b0 left (row +ℤ pos 1) rect pattern x y))

last_row :
    (from bottom : ℤ) (left : ℕ)
    → IsInt16 from
    → IsInt16 bottom
    → from +ℤ pos left ≤ℤ bottom -ℤ pos 1
    → IsInt16 (bottom -ℤ pos 1) × (from ≤ℤ bottom -ℤ pos 1)
last_row from bottom left t u h = (
  (
    ground (arith, t, u, h, +ℤ_parts from (pos left), -ℤ_parts bottom (pos 1)),
    ground (arith, t, u, h, +ℤ_parts from (pos left), -ℤ_parts bottom (pos 1)),
  ),
  ground (arith, t, u, h, +ℤ_parts from (pos left), -ℤ_parts bottom (pos 1)),
)

next_row :
    (from bottom : ℤ) (left : ℕ)
    → IsInt16 from
    → IsInt16 bottom
    → from +ℤ pos (suc left) ≤ℤ bottom -ℤ pos 1
    → IsInt16 (from +ℤ pos 1)
      × (from ≤ℤ from +ℤ pos 1)
      × (from +ℤ pos 1 +ℤ pos left ≤ℤ bottom -ℤ pos 1)
next_row from bottom left t u h = (
  (
    ground (
      arith,
      t,
      u,
      h,
      +ℤ_parts from (pos (suc left)),
      +ℤ_parts from (pos 1),
      -ℤ_parts bottom (pos 1),
    ),
    ground (
      arith,
      t,
      u,
      h,
      +ℤ_parts from (pos (suc left)),
      +ℤ_parts from (pos 1),
      -ℤ_parts bottom (pos 1),
    ),
  ),
  ground (arith, +ℤ_parts from (pos 1)),
  ground (
    arith,
    h,
    +ℤ_parts from (pos (suc left)),
    +ℤ_parts from (pos 1),
    +ℤ_parts (from +ℤ pos 1) (pos left),
  ),
)

is_later : (a b c : ℤ) → a ≤ℤ b → b ≤ℤ c → a ≤ℤ c
is_later a b c h g = omega (arith, h, g)

loop_Turned :
    (b0 b : BitmapImage) (left : ℕ) (from : ℤ) (rect : Rect) (pattern : ℤ → Byte)
    (lines : List Scanline) (scanline : List Range)
    → OnScreen b0
    → SameFrame b0 b
    → IsInt16 from
    → IsInt16 rect.bottom
    → from +ℤ pos left ≤ℤ rect.bottom -ℤ pos 1
    → ((y : ℤ) → from ≤ℤ y → row_at y scanline lines ≡ row_at y [] b0.clip_region.lines)
    → Turned b0
        (loop_mask b0 left (from +ℤ pos 1) rect pattern)
        b
        (frame_loop left (from +ℤ pos 1) rect pattern x_or lines scanline b)
unfolding frame_loop loop_mask
loop_Turned b0 b zero from rect pattern lines scanline o s t u h cursor =
    let last = rect.bottom -ℤ pos 1 in
    let fits = last_row from rect.bottom 0 t u h in
    rw (wrap16_id last fits.0) (
      row_Turned b0 b last rect.left rect.right (try_advance_scanline last lines scanline).1
        (frame_swatch pattern rect last) o s
        (try_advance-row_at last lines scanline ∙ cursor last fits.1))
loop_Turned b0 b (suc left) from rect pattern lines scanline o s t u h cursor =
    let row = from +ℤ pos 1 in
    let fits = next_row from rect.bottom left t u h in
    let swatch = frame_swatch pattern rect row in
    let moved = try_advance_scanline row lines scanline in
    let here : moved.1 ≡ row_at row [] b0.clip_region.lines =
      try_advance-row_at row lines scanline ∙ cursor row fits.1 in
    let one = row_Turned b0 b row rect.left (wrap16 (rect.left +ℤ pos 1)) moved.1 swatch o s here in
    let two =
      row_Turned b0 one.after row (wrap16 (rect.right -ℤ pos 1)) rect.right moved.1 swatch o
        one.same_frame here in
    let rest =
      loop_Turned b0 two.after left row rect pattern moved.0 moved.1 o two.same_frame fits.0 u
        fits.2
        (λ y g.
          row_at-try_advance row y lines scanline g ∙ cursor y (is_later from row y fits.1 g)) in
    rw (wrap16_id row fits.0) (
      both_Turned
        (λ b'.
          fill_row_clipped row (wrap16 (rect.right -ℤ pos 1)) rect.right moved.1 swatch x_or b'
          >>= λ b''. frame_loop left (row +ℤ pos 1) rect pattern x_or moved.0 moved.1 b'')
        one
        (both_Turned (λ b''. frame_loop left (row +ℤ pos 1) rect pattern x_or moved.0 moved.1 b'')
          two rest))

-- The pixels that FrameRect turns over: those of the top, and of the rows below it.
pub frame_mask : BitmapImage → Rect → (ℤ → Byte) → ℕ → ℕ → Bool
frame_mask b0 rect pattern x y =
    xor (row_mask b0 rect.top rect.left rect.right (frame_swatch pattern rect rect.top) x y) (
      loop_mask b0 (pos_part (rect.bottom -ℤ pos 1 -ℤ (rect.top +ℤ pos 1))) (rect.top +ℤ pos 1) rect
        pattern x y)

rows_between :
    (top bottom : ℤ)
    → top <ℤ bottom
    → top +ℤ pos (pos_part (bottom -ℤ pos 1 -ℤ (top +ℤ pos 1))) ≤ℤ bottom -ℤ pos 1
rows_between top bottom h = ground (
  arith,
  h,
  +ℤ_parts top (pos 1),
  -ℤ_parts bottom (pos 1),
  -ℤ_parts (bottom -ℤ pos 1) (top +ℤ pos 1),
  +ℤ_parts top (pos (pos_part (bottom -ℤ pos 1 -ℤ (top +ℤ pos 1)))),
)

pub frame_rect-Turned :
    (b0 b : BitmapImage) (rect : Rect) (pattern : ℤ → Byte)
    → OnScreen b0
    → SameFrame b0 b
    → IsInt16 rect.top
    → IsInt16 rect.bottom
    → rect.top <ℤ rect.bottom
    → Turned b0 (frame_mask b0 rect pattern) b (frame_rect rect pattern x_or b)
unfolding frame_rect frame_mask
frame_rect-Turned b0 b rect pattern o s t u h =
    let top = rect.top in
    let moved = try_advance_scanline top b.clip_region.lines [] in
    let same : (y : ℤ) → row_at y [] b.clip_region.lines ≡ row_at y [] b0.clip_region.lines =
      λ y. ap (λ (c : Region). row_at y [] c.lines) s.3 in
    let first =
      row_Turned b0 b top rect.left rect.right moved.1 (frame_swatch pattern rect top) o s
        (try_advance-row_at top b.clip_region.lines [] ∙ same top) in
    let left = pos_part (rect.bottom -ℤ pos 1 -ℤ (top +ℤ pos 1)) in
    rw (wrap16_id top t) (
      both_Turned (λ b'. frame_loop left (top +ℤ pos 1) rect pattern x_or moved.0 moved.1 b') first
        (loop_Turned b0 first.after left top rect pattern moved.0 moved.1 o first.same_frame t u
          (rows_between top rect.bottom h)
          (λ y g. row_at-try_advance top y b.clip_region.lines [] g ∙ same y)))

-- For a clip region on the screen and a rectangle with int16_t lines that is not empty from top
-- to bottom, FrameRect with the mode XOr succeeds, and a second call with the same rectangle
-- and pattern succeeds and gives every pixel and the frame of the bitmap back.
pub frame_rect_twice :
    (rect : Rect) (pattern : ℤ → Byte) (b : BitmapImage)
    → OnScreen b
    → IsInt16 rect.top
    → IsInt16 rect.bottom
    → rect.top <ℤ rect.bottom
    → (drawn : BitmapImage) × (after : BitmapImage) × (frame_rect rect pattern x_or b ≡ ok drawn)
      × (frame_rect rect pattern x_or drawn ≡ ok after)
      × SameFrame b after
      × ((x y : ℕ)
          → x < 8 * pixel_width_to_bytes b.width
          → after.bitmap (bit_of (pixel_width_to_bytes b.width) x y)
            ≡ b.bitmap (bit_of (pixel_width_to_bytes b.width) x y))
frame_rect_twice rect pattern b o t u h =
    let first = frame_rect-Turned b b rect pattern o (refl, refl, refl, refl) t u h in
    let second = frame_rect-Turned b first.after rect pattern o first.same_frame t u h in
    (
      first.after,
      second.after,
      first.ends,
      second.ends,
      second.same_frame,
      λ x y c.
          second.pixels x y c
          ∙ ap (λ v. xor v (frame_mask b rect pattern x y)) (first.pixels x y c)
          ∙ xor_twice (b.bitmap (bit_of (pixel_width_to_bytes b.width) x y))
              (frame_mask b rect pattern x y),
    )
