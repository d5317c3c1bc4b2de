-- ===== src/Windows/Outline/Trace.antt =====
-- The outlines that a drag leaves on the screen: each one is turned over twice but the first.
use cyder.Base.{
  ℕ, ◌*◌, ◌<◌, ◌≡◌, refl, sym, ap, ◌∙◌, Bool, true, false, List, [], ◌∷◌, ◌++◌, ◌==◌, All,
  Bool-cases, inl, inr, arith, Status, ok, ◌>>=◌, ℤ, negsuc, ◌≤ℤ◌,
}
use cyder.Events.Defs.{EventRecord, mouse_move, mouse_up}
use cyder.Graphics.Rect.{Rect, Point, pixel_width_to_bytes}
use cyder.Graphics.Region.{Region}
use cyder.Graphics.Region.Lines.{IsRegion}
use cyder.Graphics.Bitmap.{
  Byte, x_or, xor, BitmapImage, frame_rect, set_clip_region, screen_region, with_clip_rect,
}
use cyder.Graphics.Bitmap.Strides.{bit_of, HoldsLines}
use cyder.Graphics.Bitmap.Area.{OnScreen}
use cyder.Graphics.Bitmap.Turned.{SameFrame, Turned, both_Turned}
use cyder.Graphics.Bitmap.Frame.{frame_mask, frame_rect-Turned}
use cyder.Graphics.Bitmap.Clip.{HasSize, set_clip_region-OnScreen}
use cyder.Windows.Drag.{Holds}
use cyder.Windows.Outline.{moved_outline, drag_screen, IsFrame, HasFrames, first_IsFrame}

abbrev SameSize : BitmapImage → BitmapImage → Type 0
SameSize b0 b = (b.width ≡ b0.width) × (b.height ≡ b0.height) × (b.bitmap_size ≡ b0.bitmap_size)

-- The pixels of a mask are turned over, and the clip region may be another one.
record Left (b0 : BitmapImage) (mask : ℕ → ℕ → Bool) (b : BitmapImage) (result : Status BitmapImage)
    : Type 0 where
  after : BitmapImage
  ends : result ≡ ok after
  same_size : SameSize b0 after
  pixels :
      (x y : ℕ)
      → x < 8 * pixel_width_to_bytes b0.width
      → after.bitmap (bit_of (pixel_width_to_bytes b0.width) x y)
        ≡ xor (b.bitmap (bit_of (pixel_width_to_bytes b0.width) x y)) (mask x y)

clip_step :
    {b0 b : BitmapImage} {mask : ℕ → ℕ → Bool} (desktop : Region)
    (draw : BitmapImage → Status BitmapImage)
    → Turned b0 mask (set_clip_region desktop b) (draw (set_clip_region desktop b))
    → Left b0 mask b (with_clip_rect desktop draw b)
unfolding with_clip_rect set_clip_region
clip_step {b = b} desktop draw t = record {
  after = set_clip_region b.clip_region t.after;
  ends = rw t.ends refl;
  same_size = (t.same_frame.0, t.same_frame.1, t.same_frame.2);
  pixels = t.pixels;
}

is_up : (what : ℕ) → what ≡ mouse_up → ((what == mouse_move) ≡ false) × ((what == mouse_up) ≡ true)
is_up what u = (ground (arith, u), ground (arith, u))

module _ (pattern : ℤ → Byte) (desktop : Region) (first : BitmapImage) where
  clipped_frame :
      (b : BitmapImage)
      → SameSize first b
      → SameFrame (set_clip_region desktop first) (set_clip_region desktop b)
  unfolding set_clip_region screen_region
  clipped_frame b s = (s.0, s.1, s.2, rw (s.0, s.1) refl)

  outline_Left :
      (outline : Rect) (b : BitmapImage)
      → OnScreen (set_clip_region desktop first)
      → IsFrame outline
      → SameSize first b
      → Left
          (set_clip_region desktop first)
          (frame_mask (set_clip_region desktop first) outline pattern)
          b
          (with_clip_rect desktop (λ s. frame_rect outline pattern x_or s) b)
  outline_Left outline b o f s =
      clip_step desktop (λ s. frame_rect outline pattern x_or s)
        (frame_rect-Turned (set_clip_region desktop first) (set_clip_region desktop b) outline
          pattern o (clipped_frame b s) f.top16 f.bottom16 f.lines)

  both_Left :
      (outline moved : Rect) (b : BitmapImage)
      → OnScreen (set_clip_region desktop first)
      → IsFrame outline
      → IsFrame moved
      → SameSize first b
      → Left
          (set_clip_region desktop first)
          (λ x y.
            xor
              (frame_mask (set_clip_region desktop first) outline pattern x y)
              (frame_mask (set_clip_region desktop first) moved pattern x y))
          b
          (with_clip_rect desktop
            (λ s. frame_rect outline pattern x_or s >>= λ t. frame_rect moved pattern x_or t)
            b)
  both_Left outline moved b o f g s =
      let b0 = set_clip_region desktop first in
      let one =
        frame_rect-Turned b0 (set_clip_region desktop b) outline pattern o (clipped_frame b s)
          f.top16 f.bottom16 f.lines in
      clip_step desktop
        (λ s. frame_rect outline pattern x_or s >>= λ t. frame_rect moved pattern x_or t)
        (both_Turned (λ t. frame_rect moved pattern x_or t) one
          (frame_rect-Turned b0 one.after moved pattern o one.same_frame g.top16 g.bottom16
            g.lines))

  moved_back : (a m n : Bool) → xor (xor a (xor m n)) n ≡ xor a m
  moved_back a m n = ground arith

  drag_Left :
      (target_offset : Point) (outline : Rect) (before : List EventRecord) (up : EventRecord)
      (rest : List EventRecord) (b : BitmapImage)
      → OnScreen (set_clip_region desktop first)
      → SameSize first b
      → All Holds before
      → up.what ≡ mouse_up
      → HasFrames target_offset outline before
      → Left
          (set_clip_region desktop first)
          (frame_mask (set_clip_region desktop first) outline pattern)
          b
          (drag_screen pattern desktop target_offset outline (before ++ up ∷ rest) b)
  unfolding drag_screen
  drag_Left target_offset outline [] up rest b o s h u f =
      rw ((is_up up.what u).0, (is_up up.what u).1, drag_screen) (outline_Left outline b o f s)
  drag_Left target_offset outline (event ∷ before) up rest b o s h u f =
      elim (Bool-cases (event.what == mouse_move)) [
        | inl moves ↦
            rw (moves, drag_screen)
              (let moved = moved_outline target_offset outline event in
                let frames : HasFrames target_offset moved before = rw moves at (f.1) in
                let both =
                  both_Left outline moved b o f.0 (first_IsFrame target_offset moved before frames)
                    s in
                let later =
                  drag_Left target_offset moved before up rest both.after o both.same_size h.1 u
                    frames in
                record {
                  after = later.after;
                  ends = rw both.ends later.ends;
                  same_size = later.same_size;
                  pixels = λ x y c.
                      later.pixels x y c
                      ∙ ap
                          (λ v.
                            xor v (frame_mask (set_clip_region desktop first) moved pattern x y))
                          (both.pixels x y c)
                      ∙ moved_back (b.bitmap (bit_of (pixel_width_to_bytes first.width) x y))
                          (frame_mask (set_clip_region desktop first) outline pattern x y)
                          (frame_mask (set_clip_region desktop first) moved pattern x y);
                })
        | inr other ↦
            rw (other, h.0, drag_screen)
              (drag_Left target_offset outline before up rest b o s h.1 u (rw other at (f.1)))
      ]

-- For a screen that has a size and holds its lines, a desktop region in order, and a drag up to
-- the release of the button whose outlines are all not empty from top to bottom, the drawing of
-- DragGrayRegion succeeds and leaves the pixels that one FrameRect of the first outline with
-- the mode XOr, under the clip region of the desktop, would give: all later outlines are taken
-- away again, and the first is left.
pub drag_screen_leaves :
    (lo : ℤ) (pattern : ℤ → Byte) (desktop : Region) (target_offset : Point) (outline : Rect)
    (before : List EventRecord) (up : EventRecord) (rest : List EventRecord) (screen : BitmapImage)
    → HasSize screen
    → HoldsLines screen
    → IsRegion lo desktop
    → lo ≤ℤ negsuc 0
    → All Holds before
    → up.what ≡ mouse_up
    → HasFrames target_offset outline before
    → (once : BitmapImage) × (after : BitmapImage) × (frame_rect outline pattern x_or
          (set_clip_region desktop screen)
        ≡ ok once)
      × (drag_screen pattern desktop target_offset outline (before ++ up ∷ rest) screen ≡ ok after)
      × ((x y : ℕ)
          → x < 8 * pixel_width_to_bytes screen.width
          → after.bitmap (bit_of (pixel_width_to_bytes screen.width) x y)
            ≡ once.bitmap (bit_of (pixel_width_to_bytes screen.width) x y))
unfolding set_clip_region
drag_screen_leaves lo pattern desktop target_offset outline before up rest screen size holds d below
      h u f =
    let o = set_clip_region-OnScreen lo desktop screen size holds d below in
    let b0 = set_clip_region desktop screen in
    let frame = first_IsFrame target_offset outline before f in
    let once =
      frame_rect-Turned b0 b0 outline pattern o (refl, refl, refl, refl) frame.top16 frame.bottom16
        frame.lines in
    let left =
      drag_Left pattern desktop screen target_offset outline before up rest screen o
        (refl, refl, refl) h u f in
    (
      once.after,
      left.after,
      once.ends,
      left.ends,
      λ x y c. left.pixels x y c ∙ sym (once.pixels x y c),
    )
