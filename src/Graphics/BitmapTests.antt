-- ===== src/Graphics/BitmapTests.antt =====
-- The theorems on fills and clips at a bitmap of 20 by 10 pixels.
use cyder.Base.{
  ℕ, ℤ, ◌<◌, ◌+◌, ◌*◌, ◌≡◌, refl, false, not, arith, Status, ok, pos, negsuc, ◌+ℤ◌, ◌-ℤ◌, wrap16,
  ◌==◌, ◌%◌,
}
use cyder.Graphics.Rect.{Rect, pixel_width_to_bytes, new_rect}
use cyder.Graphics.Region.{Region, new_rect_region}
use cyder.Graphics.Region.Order.{intersect_region-IsRegion}
use cyder.Graphics.Region.Lines.{in_region, IsRegion}
use cyder.Graphics.Bitmap.{
  Byte, BitmapImage, copy, x_or, new_bitmap_image, set_clip_region, screen_region, with_clip_rect,
  fill_line, fill_rect, frame_rect,
}
use cyder.Graphics.Bitmap.Bits.{Filled}
use cyder.Graphics.Bitmap.Line.{fill_line-Filled}
use cyder.Graphics.Bitmap.Area.{OnScreen, Drawn}
use cyder.Graphics.Bitmap.Fill.{fill_rect-Drawn, pattern_of_line, in_clipped_rect}
use cyder.Graphics.Bitmap.Turned.{SameFrame}
use cyder.Graphics.Bitmap.Strides.{bit_of}
use cyder.Graphics.Bitmap.Frame.{frame_rect_twice}
use cyder.Graphics.Bitmap.Clip.{HasSize, set_clip_region-OnScreen, with_clip_rect_restores}

-- Every other pixel.
abbrev stripes : Byte
stripes place = place % 2 == 0

fill_line_example :
    Filled x_or stripes
      (8 * 3 + 3)
      (8 * 3 + 17)
      (λ j. false)
      (fill_line x_or stripes 3 3 17 30 (λ j. false))
fill_line_example = fill_line-Filled x_or stripes 3 3 17 30 (λ j. false) (omega arith) (omega arith)

abbrev rect : ℕ → ℕ → ℕ → ℕ → Rect
rect top left bottom right = record {
  top = pos top;
  left = pos left;
  bottom = pos bottom;
  right = pos right;
}

abbrev blank : BitmapImage
unfolding new_bitmap_image
blank = new_bitmap_image 20 10

blank_size : HasSize blank
unfolding blank new_bitmap_image
blank_size = record {
  width_pos = omega arith;
  height_pos = omega arith;
  width16 = omega arith;
  height16 = omega arith;
}

abbrev clip : Region
unfolding new_rect_region
clip = new_rect_region (rect 2 3 8 15)

clip-IsRegion : IsRegion (negsuc 0) clip
unfolding clip new_rect_region
clip-IsRegion = ((omega arith, (omega arith, tt)), ((omega arith, omega arith, tt), (tt, tt)))

set_clip_region-OnScreen_example : OnScreen (set_clip_region clip blank)
unfolding blank new_bitmap_image pixel_width_to_bytes
set_clip_region-OnScreen_example =
    set_clip_region-OnScreen (negsuc 0) clip blank blank_size (omega arith) clip-IsRegion
      (omega arith)

abbrev clipped : BitmapImage
unfolding set_clip_region
clipped = set_clip_region clip blank

fill_rect_example :
    Drawn copy
      (pattern_of_line (rect 0 5 6 19) (λ row. stripes))
      (in_clipped_rect (rect 0 5 6 19) clipped.clip_region)
      clipped
      (fill_rect (rect 0 5 6 19) (λ row. stripes) copy clipped)
unfolding ◌-ℤ◌ clipped
fill_rect_example =
    fill_rect-Drawn (rect 0 5 6 19) (λ row. stripes) copy clipped set_clip_region-OnScreen_example
      (omega arith, omega arith) (omega arith, omega arith) (omega arith) (omega arith, omega arith)

clipped-IsRegion : IsRegion (negsuc 0) clipped.clip_region
unfolding clipped set_clip_region screen_region blank new_bitmap_image new_rect_region new_rect
    wrap16 ◌+ℤ◌
clipped-IsRegion =
    intersect_region-IsRegion (negsuc 0) clip (new_rect_region (rect 0 0 10 20)) clip-IsRegion
      ((omega arith, (omega arith, tt)), ((omega arith, omega arith, tt), (tt, tt)))

clipped_size : HasSize clipped
unfolding clipped blank new_bitmap_image set_clip_region
clipped_size = record {
  width_pos = omega arith;
  height_pos = omega arith;
  width16 = omega arith;
  height16 = omega arith;
}

-- A drawing that turns all bits over.
abbrev invert : BitmapImage → Status BitmapImage
invert b = ok record b { bitmap = λ j. not (b.bitmap j) }

abbrev corner : Region
unfolding new_rect_region
corner = new_rect_region (rect 0 0 4 4)

abbrev inverted : BitmapImage
unfolding set_clip_region clipped corner
inverted = record (set_clip_region corner clipped) {
  bitmap = λ j. not ((set_clip_region corner clipped).bitmap j);
}

with_clip_rect_restores_example :
    (after : BitmapImage) × (with_clip_rect corner invert clipped ≡ ok after)
    × (after.bitmap ≡ inverted.bitmap)
    × (in_region (pos 5) (pos 3) after.clip_region ≡ in_region (pos 5) (pos 3) clipped.clip_region)
unfolding inverted set_clip_region
with_clip_rect_restores_example =
    with_clip_rect_restores (negsuc 0) (pos 5) (pos 3) corner invert clipped inverted clipped_size
      set_clip_region-OnScreen_example clipped-IsRegion (omega arith) refl (refl, refl)

abbrev grey : ℤ → Byte
grey row = stripes

frame_rect_twice_example :
    (drawn : BitmapImage) × (after : BitmapImage) × (frame_rect (rect 1 2 7 12) grey x_or clipped
      ≡ ok drawn)
    × (frame_rect (rect 1 2 7 12) grey x_or drawn ≡ ok after)
    × SameFrame clipped after
    × ((x y : ℕ)
        → x < 8 * pixel_width_to_bytes clipped.width
        → after.bitmap (bit_of (pixel_width_to_bytes clipped.width) x y)
          ≡ clipped.bitmap (bit_of (pixel_width_to_bytes clipped.width) x y))
unfolding clipped set_clip_region
frame_rect_twice_example =
    frame_rect_twice (rect 1 2 7 12) grey clipped set_clip_region-OnScreen_example
      (omega arith, omega arith) (omega arith, omega arith) (omega arith)
