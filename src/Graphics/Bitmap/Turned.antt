-- ===== src/Graphics/Bitmap/Turned.antt =====
-- Drawings that turn over pixels: they are composed by the exclusive or of their masks.
use cyder.Base.{
  ℕ, ◌*◌, ◌%◌, ◌<◌, ◌≡◌, refl, sym, ap, ◌∙◌, Bool, ◌&&◌, List, [], if◌then◌else◌, arith, Status, ok,
  ◌>>=◌, ℤ, pos, eqb_ℤ,
}
use cyder.Graphics.Rect.{pixel_width_to_bytes}
use cyder.Graphics.Rows.{Range}
use cyder.Graphics.Region.{Region}
use cyder.Graphics.Region.Lines.{row_at}
use cyder.Graphics.Bitmap.{Byte, x_or, BitmapImage, xor, set_full, fill_row_clipped}
use cyder.Graphics.Bitmap.Strides.{bit_of}
use cyder.Graphics.Bitmap.Area.{OnScreen, Drawn, in_clip_line, line_step}

-- The bitmaps that a drawing leads to keep the frame of the first one.
abbrev pub SameFrame : BitmapImage → BitmapImage → Type 0
SameFrame b0 b =
    (b.width ≡ b0.width)
    × (b.height ≡ b0.height)
    × (b.bitmap_size ≡ b0.bitmap_size)
    × (b.clip_region ≡ b0.clip_region)

-- What it is to turn over the pixels of a mask, and no others.
pub record Turned (b0 : BitmapImage) (mask : ℕ → ℕ → Bool) (b : BitmapImage)
    (result : Status BitmapImage) : Type 0 where
  pub after : BitmapImage
  pub ends : result ≡ ok after
  pub same_frame : SameFrame b0 after
  pub pixels :
      (x y : ℕ)
      → x < 8 * pixel_width_to_bytes b0.width
      → after.bitmap (bit_of (pixel_width_to_bytes b0.width) x y)
        ≡ xor (b.bitmap (bit_of (pixel_width_to_bytes b0.width) x y)) (mask x y)

-- The pixels that a row turns over: those of its columns in the clip region where the swatch is set.
unfoldable pub row_mask : BitmapImage → ℤ → ℤ → ℤ → Byte → ℕ → ℕ → Bool
row_mask b0 row start end swatch x y =
    (eqb_ℤ (pos y) row && in_clip_line b0.clip_region start end x y)
    && swatch (bit_of (pixel_width_to_bytes b0.width) x y % 8)

turn_bit : (t p old : Bool) → (if t then xor old p else old) ≡ xor old (t && p)
turn_bit t p old = ground arith

OnScreen-SameFrame : {b0 b : BitmapImage} → SameFrame b0 b → OnScreen b0 → OnScreen b
OnScreen-SameFrame s o = record {
  holds = rw (s.0, s.1, s.2) o.holds;
  rows = rw s.3 o.rows;
  ends = rw (s.0, s.3) o.ends;
  lines = rw (s.1, s.3) o.lines;
}

Drawn-Turned :
    {b0 b : BitmapImage} {r : Status BitmapImage} (row start end : ℤ) (swatch : Byte)
    → SameFrame b0 b
    → Drawn x_or
        (λ _. swatch)
        (λ x y. eqb_ℤ (pos y) row && in_clip_line b.clip_region start end x y)
        b
        r
    → Turned b0 (row_mask b0 row start end swatch) b r
unfolding set_full row_mask
Drawn-Turned {b0 = b0} {b = b} row start end swatch s d = record {
  after = d.after;
  ends = d.ends;
  same_frame =
      (d.same_frame.0 ∙ s.0, d.same_frame.1 ∙ s.1, d.same_frame.2 ∙ s.2, d.same_frame.3 ∙ s.3);
  pixels = λ x y c.
      rw (sym s.0, sym s.3)
        (d.pixels x y (rw s.0 c)
          ∙ turn_bit (eqb_ℤ (pos y) row && in_clip_line b.clip_region start end x y)
              (swatch (bit_of (pixel_width_to_bytes b.width) x y % 8))
              (b.bitmap (bit_of (pixel_width_to_bytes b.width) x y)));
}

pub row_Turned :
    (b0 b : BitmapImage) (row start end : ℤ) (scanline : List Range) (swatch : Byte)
    → OnScreen b0
    → SameFrame b0 b
    → scanline ≡ row_at row [] b0.clip_region.lines
    → Turned b0
        (row_mask b0 row start end swatch)
        b
        (fill_row_clipped row start end scanline swatch x_or b)
row_Turned b0 b row start end scanline swatch o s h =
    rw (h ∙ ap (λ (c : Region). row_at row [] c.lines) (sym s.3)) (
      Drawn-Turned row start end swatch s (
        line_step x_or (λ _. swatch) start end row swatch b (OnScreen-SameFrame s o) (λ y e. refl)))

xor_assoc : (a b c : Bool) → xor (xor a b) c ≡ xor a (xor b c)
xor_assoc a b c = ground arith

pub xor_twice : (a m : Bool) → xor (xor a m) m ≡ a
xor_twice a m = ground arith

pub both_Turned :
    {b0 b : BitmapImage} {m1 m2 : ℕ → ℕ → Bool} {r : Status BitmapImage}
    (next : BitmapImage → Status BitmapImage)
    → (first : Turned b0 m1 b r) → Turned b0 m2 first.after (next first.after)
    → Turned b0 (λ x y. xor (m1 x y) (m2 x y)) b (r >>= next)
both_Turned {b0 = b0} {b = b} {m1 = m1} {m2 = m2} next first second = record {
  after = second.after;
  ends = rw first.ends second.ends;
  same_frame = second.same_frame;
  pixels = λ x y c.
      second.pixels x y c
      ∙ ap (λ v. xor v (m2 x y)) (first.pixels x y c)
      ∙ xor_assoc (b.bitmap (bit_of (pixel_width_to_bytes b0.width) x y)) (m1 x y) (m2 x y);
}
