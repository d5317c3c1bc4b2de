-- ===== src/Graphics/Bitmap/Strides.antt =====
-- The pixels of a line that are set, by their columns and lines.
use cyder.Base.{
  ℕ, zero, suc, ◌+◌, ◌*◌, ◌%◌, ◌<◌, ◌≤◌, ◌≡◌, refl, ap, ◌∙◌, Bool, false, ◌&&◌, ◌==◌, ==_iff,
  ltb→lt, ltb, leb, if◌then◌else◌, Bool-cases, inl, inr, arith, Status, ok,
}
use cyder.Graphics.Rect.{pixel_width_to_bytes}
use cyder.Graphics.Bitmap.{Byte, FillMode, BitmapImage, set_full, fill_row_pixels}
use cyder.Graphics.Bitmap.Bits.{filled_bits}
use cyder.Graphics.Bitmap.Line.{fill_line-Filled}

-- The bit of a pixel: the lines have `stride` bytes.
abbrev pub bit_of : ℕ → ℕ → ℕ → ℕ
bit_of stride x y = 8 * (y * stride) + x

later_line : (stride y row : ℕ) → y < row → y * stride + stride ≤ row * stride
later_line stride y zero h = ground (arith, h)
later_line stride y (suc row) h = elim (Bool-cases (y == row)) [
  | inl same ↦ rw ((==_iff y row).0 same) (grind arith)
  | inr before ↦ grind (arith, later_line stride y row (ground arith))
]

same_line :
    (line x start end : ℕ)
    → leb (8 * line + start) (8 * line + x) && ltb (8 * line + x) (8 * line + end)
      ≡ leb start x && ltb x end
same_line line x start end = ground arith

before_line :
    (stride line row x start end : ℕ)
    → line + stride ≤ row
    → x < 8 * stride
    → leb (8 * row + start) (8 * line + x) && ltb (8 * line + x) (8 * row + end) ≡ false
before_line stride line row x start end l h = ground arith

after_line :
    (stride line row x start end : ℕ)
    → row + stride ≤ line
    → end ≤ 8 * stride
    → leb (8 * row + start) (8 * line + x) && ltb (8 * line + x) (8 * row + end) ≡ false
after_line stride line row x start end l h = ground arith

in_line_lem :
    (stride x y row start end : ℕ)
    → x < 8 * stride
    → end ≤ 8 * stride
    → leb (8 * (row * stride) + start) (bit_of stride x y)
        && ltb (bit_of stride x y) (8 * (row * stride) + end)
      ≡ (y == row) && (leb start x && ltb x end)
in_line_lem stride x y row start end h e = elim (Bool-cases (y == row)) [
  | inl same ↦ rw (same, (==_iff y row).0 same) (same_line (row * stride) x start end)
  | inr other ↦ rw other (elim (Bool-cases (ltb y row)) [
    | inl first ↦
        before_line stride (y * stride) (row * stride) x start end
          (later_line stride y row (ltb→lt y row first)) h
    | inr second ↦
        after_line stride (y * stride) (row * stride) x start end
          (later_line stride row y (ground (arith, other, second))) e
  ])
]

-- What it is for a fill to set the pixels of a line that pass a test, and no other pixel; the
-- columns of a line are those below `8 * stride`.
pub record LineFilled (mode : FillMode) (pattern : Byte) (row : ℕ) (test : ℕ → Bool)
    (b : BitmapImage) (result : Status BitmapImage) : Type 0 where
  pub after : BitmapImage
  pub ends : result ≡ ok after
  pub same_frame :
      (after.width ≡ b.width)
      × (after.height ≡ b.height)
      × (after.bitmap_size ≡ b.bitmap_size)
      × (after.clip_region ≡ b.clip_region)
  pub pixels :
      (x y : ℕ)
      → x < 8 * pixel_width_to_bytes b.width
      → after.bitmap (bit_of (pixel_width_to_bytes b.width) x y) ≡ (
          if (y == row) && test x
          then set_full mode
              (pattern (bit_of (pixel_width_to_bytes b.width) x y % 8))
              (b.bitmap (bit_of (pixel_width_to_bytes b.width) x y))
          else b.bitmap (bit_of (pixel_width_to_bytes b.width) x y))

-- A bitmap whose lines all lie in its bytes.
abbrev pub HoldsLines : BitmapImage → Type 0
HoldsLines b = b.height * pixel_width_to_bytes b.width ≤ b.bitmap_size

fits_lem :
    (stride row height end size : ℕ)
    → row < height
    → height * stride ≤ size
    → end ≤ 8 * stride
    → 8 * (row * stride) + end ≤ 8 * size
fits_lem stride row height end size h k e = omega (arith, later_line stride row height h, k, e)

-- One range of a clipped row.
pub range_LineFilled :
    (mode : FillMode) (pattern : Byte) (row start end : ℕ) (b : BitmapImage)
    → start < end
    → row < b.height
    → end ≤ 8 * pixel_width_to_bytes b.width
    → HoldsLines b
    → LineFilled mode pattern row
        (λ x. leb start x && ltb x end)
        b
        (fill_row_pixels row start end pattern mode b)
unfolding fill_row_pixels filled_bits
range_LineFilled mode pattern row start end b l r e h =
    let stride = pixel_width_to_bytes b.width in
    let f =
      fill_line-Filled mode pattern (row * stride) start end b.bitmap_size b.bitmap l
        (fits_lem stride row b.height end b.bitmap_size r h e) in
    record {
      after = record b { bitmap = f.after };
      ends = rw f.ends refl;
      same_frame = (refl, refl, refl, refl);
      pixels = λ x y c.
          f.pixels (bit_of stride x y)
          ∙ ap
              (λ t.
                if t
                then set_full mode (pattern (bit_of stride x y % 8)) (b.bitmap (bit_of stride x y))
                else b.bitmap (bit_of stride x y))
              (in_line_lem stride x y row start end c e);
    }
