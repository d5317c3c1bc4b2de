-- ===== src/Windows/OutlineTests.antt =====
-- The outline of a drag on a screen of 40 by 40 pixels.
use cyder.Base.{
  ℕ, ◌*◌, ◌%◌, ◌≡◌, refl, [], ◌∷◌, ok, ℤ, pos, negsuc, arith, ◌==◌, ◌<◌, wrap16, ◌+ℤ◌, ◌-ℤ◌,
}
use cyder.Events.Defs.{EventRecord, mouse_move, mouse_up}
use cyder.Graphics.Bitmap.{Byte, x_or, BitmapImage, new_bitmap_image, frame_rect, set_clip_region}
use cyder.Graphics.Bitmap.Strides.{bit_of}
use cyder.Graphics.Bitmap.Clip.{HasSize}
use cyder.Windows.Outline.Trace.{drag_screen_leaves}
use cyder.Windows.Outline.{moved_outline, drag_screen, HasFrames}
use cyder.Graphics.Rect.{Rect, Point, rect_height, pixel_width_to_bytes, new_rect, rect_width}
use cyder.Graphics.Region.{Region, new_rect_region}
use cyder.Graphics.Region.Lines.{IsRegion}

abbrev rect : ℤ → ℤ → ℤ → ℤ → Rect
rect top left bottom right = record { top = top; left = left; bottom = bottom; right = right }

abbrev event_at : ℕ → ℤ → ℤ → EventRecord
event_at what x y = record {
  what = what;
  message = 0;
  when = 0;
  where_ = record { y = y; x = x };
  modifiers = 0;
}

-- A screen of 40 by 40 pixels, and an outline on it that is dragged by 5 to the right and down.
abbrev small_screen : BitmapImage
unfolding new_bitmap_image
small_screen = new_bitmap_image 40 40

abbrev desktop : Region
unfolding new_rect_region
desktop = new_rect_region (rect (pos 20) (pos 0) (pos 40) (pos 40))

abbrev stripes : ℤ → Byte
stripes row place = place % 2 == 0

small_screen_size : HasSize small_screen
unfolding small_screen new_bitmap_image
small_screen_size = record {
  width_pos = omega arith;
  height_pos = omega arith;
  width16 = omega arith;
  height16 = omega arith;
}

desktop-IsRegion : IsRegion (negsuc 0) desktop
unfolding desktop new_rect_region
desktop-IsRegion = ((omega arith, (omega arith, tt)), ((omega arith, omega arith, tt), (tt, tt)))

abbrev start_offset : Point
start_offset = record { y = pos 0; x = pos 0 }

outlines :
    HasFrames start_offset
      (rect (pos 22) (pos 4) (pos 30) (pos 20))
      (event_at mouse_move (pos 9) (pos 27) ∷ [])
unfolding moved_outline new_rect rect_width rect_height wrap16 ◌+ℤ◌ ◌-ℤ◌
outlines = (
  record {
    top16 = (omega arith, omega arith);
    bottom16 = (omega arith, omega arith);
    lines = omega arith;
  },
  record {
    top16 = (omega arith, omega arith);
    bottom16 = (omega arith, omega arith);
    lines = omega arith;
  },
)

drag_screen_leaves_example :
    (once : BitmapImage) × (after : BitmapImage) × (frame_rect
        (rect (pos 22) (pos 4) (pos 30) (pos 20))
        stripes
        x_or
        (set_clip_region desktop small_screen)
      ≡ ok once)
    × (drag_screen stripes desktop start_offset
          (rect (pos 22) (pos 4) (pos 30) (pos 20))
          (event_at mouse_move (pos 9) (pos 27) ∷ event_at mouse_up (pos 9) (pos 27) ∷ [])
          small_screen
        ≡ ok after)
    × ((x y : ℕ)
        → x < 8 * pixel_width_to_bytes small_screen.width
        → after.bitmap (bit_of (pixel_width_to_bytes small_screen.width) x y)
          ≡ once.bitmap (bit_of (pixel_width_to_bytes small_screen.width) x y))
unfolding small_screen new_bitmap_image pixel_width_to_bytes
drag_screen_leaves_example =
    drag_screen_leaves (negsuc 0) stripes desktop start_offset
      (rect (pos 22) (pos 4) (pos 30) (pos 20)) (event_at mouse_move (pos 9) (pos 27) ∷ [])
      (event_at mouse_up (pos 9) (pos 27)) [] small_screen small_screen_size (omega arith)
      desktop-IsRegion (omega arith) (refl, tt) refl outlines
