-- ===== src/Graphics/Bitmap.antt =====
-- The row fills of emu/graphics/bitmap_image.cc. A byte is its bits, from the highest on, and a
-- bitmap the bits of its bytes one after another; a fill is clipped to the screen, so that its
-- pixels have natural coordinates.
pub mod Bits
pub mod Line
pub mod Strides
pub mod Clipped
pub mod Cursor
pub mod Area
pub mod Fill
pub mod Clip
pub mod Turned
pub mod Frame
use cyder.Base.{
  ℕ, zero, suc, ◌+◌, ◌-◌, ◌*◌, ◌/◌, ◌%◌, Bool, true, false, not, ◌&&◌, ◌||◌, List, [], ◌∷◌, ◌==◌,
  ltb, leb, if◌then◌else◌, ℤ, pos, negsuc, pos_part, neg_part, ◌+ℤ◌, ◌-ℤ◌, ltb_ℤ, leb_ℤ, max_ℤ,
  min_ℤ, wrap16, Status, ok, crash, check, ◌>>=◌, ◌>>◌,
}
use cyder.Graphics.Rect.{Rect, pixel_width_to_bytes, new_rect, rect_height}
use cyder.Graphics.Rows.{Range}
use cyder.Graphics.Region.{Scanline, Region, new_rect_region, intersect_region}

-- A byte: the bit at each place, 0 for the highest.
abbrev pub Byte : Type 0
Byte = ℕ → Bool

pub data FillMode : Type 0 where
  copy x_or not_x_or : FillMode

pub record BitmapImage : Type 0 where
  pub width : ℕ
  pub height : ℕ
  pub bitmap_size : ℕ
  pub bitmap : ℕ → Bool
  pub clip_region : Region

abbrev pub xor : Bool → Bool → Bool
xor true b = not b
xor false b = b

-- RotateByteRight, for a shift below 8.
unfoldable pub rotate_byte_right : Byte → ℕ → Byte
rotate_byte_right byte shift place = byte ((place + 8 - shift) % 8)

-- kMask.
unfoldable pub k_mask : ℕ → Byte
k_mask n place = leb n place

-- What becomes of one bit, under a bit of the mask.
unfoldable pub masked : FillMode → Bool → Bool → Bool → Bool
masked copy mask pattern old = (old && not mask) || (mask && pattern)
masked x_or mask pattern old = xor old (mask && pattern)
masked not_x_or mask pattern old = xor old (mask && not pattern)

unfoldable pub set_index_with_mask : FillMode → Byte → ℕ → Byte → (ℕ → Bool) → ℕ → Bool
unfolding masked
set_index_with_mask mode pattern index mask bits j =
    if j / 8 == index then masked mode (mask (j % 8)) (pattern (j % 8)) (bits j) else bits j

-- A full byte: memset, and the loops of the other modes.
unfoldable pub set_full : FillMode → Bool → Bool → Bool
set_full copy pattern old = pattern
set_full x_or pattern old = xor old pattern
set_full not_x_or pattern old = xor old (not pattern)

unfoldable pub fill_full_bytes : FillMode → Byte → ℕ → ℕ → (ℕ → Bool) → ℕ → Bool
unfolding set_full
fill_full_bytes mode pattern start_byte zero bits = bits
fill_full_bytes mode pattern start_byte (suc count) bits =
    fill_full_bytes mode pattern (suc start_byte) count
      (λ j. if j / 8 == start_byte then set_full mode (pattern (j % 8)) (bits j) else bits j)

-- _FillRow after the start: whole bytes, and then what is left.
unfoldable pub fill_aligned : FillMode → Byte → ℕ → ℕ → ℕ → (ℕ → Bool) → Status (ℕ → Bool)
unfolding fill_full_bytes set_index_with_mask k_mask
fill_aligned mode pattern start_byte remaining_pixels bitmap_size bits = do
  let full_bytes = remaining_pixels / 8
  check (full_bytes == 0 || ltb (start_byte + full_bytes - 1) bitmap_size)
  let filled = fill_full_bytes mode pattern start_byte full_bytes bits
  let end_outset = remaining_pixels % 8
  check (end_outset == 0 || ltb (start_byte + full_bytes) bitmap_size)
  ok (
      if end_outset == 0
      then filled
      else set_index_with_mask mode pattern (start_byte + full_bytes)
          (λ place. not (k_mask end_outset place)) filled)

-- _FillRow, for a row that is not empty, from the first byte of the line on.
unfoldable pub fill_line : FillMode → Byte → ℕ → ℕ → ℕ → ℕ → (ℕ → Bool) → Status (ℕ → Bool)
unfolding fill_aligned set_index_with_mask k_mask
fill_line mode pattern line_byte start end bitmap_size bits =
    let start_byte = line_byte + start / 8 in
    let start_offset = start % 8 in
    let byte_aligned_size = start_offset + (end - start) in
    if start_offset == 0
    then fill_aligned mode pattern start_byte (end - start) bitmap_size bits
    else (do
      check (ltb start_byte bitmap_size)
      (if leb byte_aligned_size 8
          then ok (
              set_index_with_mask mode pattern start_byte
                (λ place. k_mask start_offset place && not (k_mask byte_aligned_size place)) bits)
          else fill_aligned mode pattern (start_byte + 1) (end - start - (8 - start_offset))
              bitmap_size (set_index_with_mask mode pattern start_byte (k_mask start_offset) bits)))

unfoldable pub fill_row_pixels : ℕ → ℕ → ℕ → Byte → FillMode → BitmapImage → Status BitmapImage
unfolding fill_line pixel_width_to_bytes
fill_row_pixels row start end pattern mode b = do
  bits ←
      fill_line mode pattern (row * pixel_width_to_bytes b.width) start end b.bitmap_size b.bitmap
  ok record b { bitmap = bits }

-- RegionCursor::TryAdvanceScanline: the scanlines that are left, and the row that is current.
unfoldable pub try_advance_scanline : ℤ → List Scanline → List Range → List Scanline × List Range
try_advance_scanline y [] output = ([], output)
try_advance_scanline y (l ∷ ls) output =
    if ltb_ℤ y l.y then (l ∷ ls, output) else try_advance_scanline y ls l.row

-- FillRow: the loop over the ranges of a scanline, and the test of the row before it.
unfoldable pub fill_ranges :
    ℕ → ℤ → ℤ → List Range → Byte → FillMode → BitmapImage → Status BitmapImage
unfolding fill_row_pixels
fill_ranges row start end [] pattern mode b = ok b
fill_ranges row start end (clip ∷ scanline) pattern mode b =
    let clipped_start = max_ℤ start clip.start in
    let clipped_end = min_ℤ end clip.end in
    let next =
      if leb_ℤ clipped_end clipped_start
      then ok b
      else fill_row_pixels row (pos_part clipped_start) (pos_part clipped_end) pattern mode b in
    next >>= λ b'. fill_ranges row start end scanline pattern mode b'

abbrev pub row_in_clip : ℤ → BitmapImage → Bool
row_in_clip row b = leb_ℤ b.clip_region.rect.top row && ltb_ℤ row b.clip_region.rect.bottom

unfoldable pub fill_row_clipped :
    ℤ → ℤ → ℤ → List Range → Byte → FillMode → BitmapImage → Status BitmapImage
unfolding fill_ranges
fill_row_clipped row start end scanline pattern mode b =
    if row_in_clip row b then fill_ranges (pos_part row) start end scanline pattern mode b else ok b

unfoldable pub fill_row : ℤ → ℤ → ℤ → Byte → FillMode → BitmapImage → Status BitmapImage
unfolding fill_row_clipped try_advance_scanline
fill_row row start end pattern mode b =
    if row_in_clip row b
    then fill_row_clipped row start end (try_advance_scanline (wrap16 row) b.clip_region.lines []).1
        pattern mode b
    else ok b

-- FillRect: the loop over the rows that are left, from one on.
unfoldable pub fill_rect_loop :
    ℕ
    → ℕ
    → Rect
    → ℕ
    → (ℕ → Byte)
    → FillMode
    → List Scanline
    → List Range
    → BitmapImage
    → Status BitmapImage
unfolding try_advance_scanline rotate_byte_right fill_row_clipped
fill_rect_loop zero row rect offset pattern mode lines scanline b = ok b
fill_rect_loop (suc left) row rect offset pattern mode lines scanline b =
    let y = rect.top +ℤ pos row in
    let cursor = try_advance_scanline (wrap16 y) lines scanline in
    fill_row_clipped y rect.left rect.right cursor.1 (rotate_byte_right (pattern (row % 8)) offset)
      mode b
    >>= λ b'. fill_rect_loop left (suc row) rect offset pattern mode cursor.0 cursor.1 b'

unfoldable pub fill_rect : Rect → (ℕ → Byte) → FillMode → BitmapImage → Status BitmapImage
unfolding fill_rect_loop rect_height
fill_rect rect pattern mode b =
    fill_rect_loop (pos_part (rect_height rect)) 0 rect (pos_part rect.left % 8) pattern mode
      b.clip_region.lines [] b

-- FrameRect. A negative row has a negative index into the pattern, as the remainder of C has it;
-- the pattern goes on before its start here, as the memory does.
unfoldable pub frame_index : ℤ → ℤ
frame_index (pos n) = pos (n % 8)
frame_index (negsuc n) = pos 0 -ℤ pos (suc n % 8)

unfoldable pub frame_swatch : (ℤ → Byte) → Rect → ℤ → Byte
unfolding frame_index rotate_byte_right
frame_swatch pattern rect row =
    rotate_byte_right (pattern (frame_index row)) (pos_part rect.left % 8)

-- The rows that are left between the first and the last, from one on, and then the last.
unfoldable pub frame_loop :
    ℕ
    → ℤ
    → Rect
    → (ℤ → Byte)
    → FillMode
    → List Scanline
    → List Range
    → BitmapImage
    → Status BitmapImage
unfolding try_advance_scanline frame_swatch fill_row_clipped
frame_loop zero row rect pattern mode lines scanline b =
    let last = rect.bottom -ℤ pos 1 in
    let cursor = try_advance_scanline (wrap16 last) lines scanline in
    fill_row_clipped last rect.left rect.right cursor.1 (frame_swatch pattern rect last) mode b
frame_loop (suc left) row rect pattern mode lines scanline b =
    let cursor = try_advance_scanline (wrap16 row) lines scanline in
    let swatch = frame_swatch pattern rect row in
    fill_row_clipped row rect.left (wrap16 (rect.left +ℤ pos 1)) cursor.1 swatch mode b >>= λ b'.
    fill_row_clipped row (wrap16 (rect.right -ℤ pos 1)) rect.right cursor.1 swatch mode b'
    >>= λ b''. frame_loop left (row +ℤ pos 1) rect pattern mode cursor.0 cursor.1 b''

unfoldable pub frame_rect : Rect → (ℤ → Byte) → FillMode → BitmapImage → Status BitmapImage
unfolding try_advance_scanline frame_swatch fill_row_clipped frame_loop
frame_rect rect pattern mode b =
    let cursor = try_advance_scanline (wrap16 rect.top) b.clip_region.lines [] in
    fill_row_clipped rect.top rect.left rect.right cursor.1 (frame_swatch pattern rect rect.top)
      mode b
    >>= λ b'.
        frame_loop (pos_part (rect.bottom -ℤ pos 1 -ℤ (rect.top +ℤ pos 1))) (rect.top +ℤ pos 1) rect
          pattern mode cursor.0 cursor.1 b'

-- FillRegion reads the scanlines from the row 0 on.
unfoldable pub fill_region_loop :
    ℕ
    → ℕ
    → ℕ
    → (ℕ → Byte)
    → FillMode
    → List Scanline
    → List Range
    → BitmapImage
    → Status BitmapImage
unfolding try_advance_scanline rotate_byte_right fill_row_clipped
fill_region_loop zero row offset pattern mode lines scanline b = ok b
fill_region_loop (suc left) row offset pattern mode lines scanline b =
    let cursor = try_advance_scanline (pos row) lines scanline in
    fill_row_clipped (pos row) (pos 0) (pos b.width) cursor.1
      (rotate_byte_right (pattern (row % 8)) offset) mode b
    >>= λ b'. fill_region_loop left (suc row) offset pattern mode cursor.0 cursor.1 b'

unfoldable pub fill_region : Region → (ℕ → Byte) → FillMode → BitmapImage → Status BitmapImage
unfolding fill_region_loop rect_height
fill_region region pattern mode b =
    fill_region_loop (pos_part (rect_height region.rect)) 0 (pos_part region.rect.left % 8) pattern
      mode region.lines [] b

unfoldable pub screen_region : BitmapImage → Region
unfolding new_rect_region new_rect
screen_region b = new_rect_region (new_rect (pos 0) (pos 0) (pos b.width) (pos b.height))

-- The constructor for a width and a height.
unfoldable pub new_bitmap_image : ℕ → ℕ → BitmapImage
unfolding pixel_width_to_bytes new_rect_region new_rect
new_bitmap_image width height = record {
  width = width;
  height = height;
  bitmap_size = pixel_width_to_bytes width * height;
  bitmap = λ j. false;
  clip_region = new_rect_region (new_rect (pos 0) (pos 0) (pos width) (pos height));
}

unfoldable pub set_clip_region : Region → BitmapImage → BitmapImage
unfolding intersect_region screen_region
set_clip_region region b = record b { clip_region = intersect_region region (screen_region b) }

-- The life of a TempClipRect: the clip region is saved, set, and set to the saved one at the end.
unfoldable pub with_clip_rect :
    Region → (BitmapImage → Status BitmapImage) → BitmapImage → Status BitmapImage
unfolding set_clip_region
with_clip_rect region draw b = do
  drawn ← draw (set_clip_region region b)
  ok (set_clip_region b.clip_region drawn)
