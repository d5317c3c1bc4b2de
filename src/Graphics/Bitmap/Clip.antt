-- ===== src/Graphics/Bitmap/Clip.antt =====
-- The clip region: what SetClipRegion and the life of a TempClipRect keep.
use cyder.Base.{
  ℕ, ◌<◌, ◌^◌, ◌≡◌, refl, sym, ap, ap₂, subst, ◌∙◌, false, ◌&&◌, ◌||◌, ◌⊎◌, inl, inr, List, [], ◌∷◌,
  ◌++◌, Bool-cases, arith, Status, ok, ℤ, pos, negsuc, ◌≤ℤ◌, ◌<ℤ◌, ltb_ℤ, leb_ℤ, ◌+ℤ◌, wrap16,
}
use cyder.Graphics.Rect.{new_rect}
use cyder.Graphics.Rows.{Range, intersect_range, intersect_row}
use cyder.Graphics.Rows.Meaning.{in_row, Row}
use cyder.Graphics.Rows.Order.{intersect_loop-Row}
use cyder.Graphics.Rows.Combine.{in_row-intersect_row}
use cyder.Graphics.Region.{
  Scanline, Region, start_rect, new_rect_region, region_op, intersect_region,
}
use cyder.Graphics.Region.Lines.{
  row_at, in_region, Lines, Rows, IsRegion, Lines-weaken, row_at-region_loop, leb-true, leb-false,
}
use cyder.Graphics.Region.Points.{row_at-Row}
use cyder.Graphics.Bitmap.{BitmapImage, screen_region, set_clip_region, with_clip_rect}
use cyder.Graphics.Bitmap.Strides.{HoldsLines}
use cyder.Graphics.Bitmap.Clipped.{EndsBy}
use cyder.Graphics.Bitmap.Area.{OnScreen}

EndsBy-intersect_row :
    (width : ℕ) (r s : List Range) → EndsBy width s → EndsBy width (intersect_row r s)
unfolding intersect_row intersect_range
EndsBy-intersect_row width [] s h = tt
EndsBy-intersect_row width (v ∷ r) [] h = tt
EndsBy-intersect_row width (v1 ∷ r1) (v2 ∷ r2) h = elim (Bool-cases (ltb_ℤ v1.end v2.end)) [
  | inl first ↦
      rw (first, intersect_row)
        (ends_first width v1 v2 _ h.0 (EndsBy-intersect_row width r1 (v2 ∷ r2) h))
  | inr second ↦
      rw (second, intersect_row)
        (ends_first width v1 v2 _ h.0 (EndsBy-intersect_row width (v1 ∷ r1) r2 h.1))
]
  where
    ends_first :
        (width : ℕ) (v1 v2 : Range) (rest : List Range)
        → v2.end ≤ℤ pos width
        → EndsBy width rest
        → EndsBy width (intersect_range v1 v2 ++ rest)
    ends_first width v1 v2 rest h k = ground arith

intersect_row-empty : (r : List Range) → intersect_row r [] ≡ []
unfolding intersect_row
intersect_row-empty [] = refl
intersect_row-empty (v ∷ r) = refl

-- The row of a screen at a line: all columns, or none.
screen_row :
    (y w h : ℤ)
    → (row_at y [] (
          record { y = pos 0; row = record { start = pos 0; end = w } ∷ [] }
          ∷ record { y = h; row = [] }
          ∷ [])
        ≡ [])
      ⊎ ((row_at y [] (
              record { y = pos 0; row = record { start = pos 0; end = w } ∷ [] }
              ∷ record { y = h; row = [] }
              ∷ [])
            ≡ record { start = pos 0; end = w } ∷ [])
          × (pos 0 ≤ℤ y)
          × (y <ℤ h))
screen_row y w h = elim (Bool-cases (leb_ℤ (pos 0) y)) [
  | inl below ↦ elim (Bool-cases (leb_ℤ h y)) [
    | inl past ↦ inl (rw (below, past) refl)
    | inr inside ↦ inr (rw (below, inside) refl, ground (arith, below), ground (arith, inside))
  ]
  | inr above ↦ inl (rw above refl)
]

-- The image is not empty, and its sizes are of int16_t.
pub record HasSize (b : BitmapImage) : Type 0 where
  pub width_pos : 0 < b.width
  pub height_pos : 0 < b.height
  pub width16 : b.width < 2 ^ 15
  pub height16 : b.height < 2 ^ 15

abbrev screen_lines : ℕ → ℕ → List Scanline
screen_lines width height =
    record { y = pos 0; row = record { start = pos 0; end = pos width } ∷ [] }
    ∷ record { y = pos height; row = [] }
    ∷ []

int16_pos : (n : ℕ) → n < 2 ^ 15 → wrap16 (pos 0 +ℤ pos n) ≡ pos n
unfolding wrap16 ◌+ℤ◌
int16_pos n h = ground arith

screen_region_lines :
    (b : BitmapImage) → HasSize b → (screen_region b).lines ≡ screen_lines b.width b.height
unfolding screen_region new_rect_region new_rect
screen_region_lines b s = rw (int16_pos b.width s.width16, int16_pos b.height s.height16) refl

screen_lines-IsRegion :
    (b : BitmapImage)
    → HasSize b
    → Lines (negsuc 0) (screen_lines b.width b.height)
      × Rows (negsuc 0) (screen_lines b.width b.height)
screen_lines-IsRegion b s = (
  (omega arith, (omega (arith, s.height_pos), tt)),
  ((omega arith, omega (arith, s.width_pos), tt), (tt, tt)),
)

-- The rows of the clip region that SetClipRegion sets.
clip_row :
    (lo y : ℤ) (region : Region) (b : BitmapImage)
    → HasSize b
    → IsRegion lo region
    → lo ≤ℤ negsuc 0
    → row_at y [] (set_clip_region region b).clip_region.lines
      ≡ intersect_row (row_at y [] region.lines) (row_at y [] (screen_lines b.width b.height))
unfolding set_clip_region intersect_region region_op intersect_row
clip_row lo y region b s o below =
    row_at-region_loop intersect_row y lo [] [] [] start_rect region.lines (screen_region b).lines
      o.0
      (subst (Lines lo) {x = screen_lines b.width b.height} {y = (screen_region b).lines}
        (sym (screen_region_lines b s))
        (Lines-weaken (negsuc 0) lo (screen_lines b.width b.height) below
          (screen_lines-IsRegion b s).0))
      refl
    ∙ ap (λ ls. intersect_row (row_at y [] region.lines) (row_at y [] ls)) (screen_region_lines b s)

-- For a bitmap that has a size and holds its lines, SetClipRegion to a region in order leaves a
-- clip region whose rows are in order and lie on the bitmap.
pub set_clip_region-OnScreen :
    (lo : ℤ) (region : Region) (b : BitmapImage)
    → HasSize b
    → HoldsLines b
    → IsRegion lo region
    → lo ≤ℤ negsuc 0
    → OnScreen (set_clip_region region b)
unfolding set_clip_region
set_clip_region-OnScreen lo region b s holds o below = record {
  holds = holds;
  rows = λ y.
      rw (clip_row lo y region b s o below) (elim (screen_row y (pos b.width) (pos b.height)) [
        | inl nothing ↦ rw (nothing, intersect_row-empty (row_at y [] region.lines)) tt
        | inr (full, from, to) ↦ rw full (
            intersect_loop-Row (pos 0) lo (pos 0) (row_at y [] region.lines)
              (record { start = pos 0; end = pos b.width } ∷ []) (inr (omega arith))
              (row_at-Row y lo [] region.lines tt o.1)
              (omega arith, omega (arith, s.width_pos), tt))
      ]);
  ends = λ y.
      rw (clip_row lo y region b s o below) (elim (screen_row y (pos b.width) (pos b.height)) [
        | inl nothing ↦ rw (nothing, intersect_row-empty (row_at y [] region.lines)) tt
        | inr (full, from, to) ↦ rw full (
            EndsBy-intersect_row b.width (row_at y [] region.lines)
              (record { start = pos 0; end = pos b.width } ∷ []) (omega arith, tt))
      ]);
  lines = λ y. elim (screen_row y (pos b.width) (pos b.height)) [
    | inl nothing ↦ inl (
        clip_row lo y region b s o below
        ∙ rw (nothing, intersect_row-empty (row_at y [] region.lines)) refl)
    | inr (full, from, to) ↦ inr (from, to)
  ];
}

all_within :
    (x lo : ℤ) (width : ℕ) (row : List Range)
    → pos 0 ≤ℤ lo
    → Row lo row
    → EndsBy width row
    → in_row x row && (leb_ℤ (pos 0) x && ltb_ℤ x (pos width) || false) ≡ in_row x row
all_within x lo width [] n o e = refl
all_within x lo width (r ∷ rest) n o e =
    ground
      (arith, o.0, o.1, e.0, all_within x r.end width rest (omega (arith, n, o.0, o.1)) o.2 e.1)

-- On the screen, the screen itself takes nothing away.
in_screen :
    (x y : ℤ) (b : BitmapImage)
    → OnScreen b
    → in_row x (row_at y [] b.clip_region.lines)
        && in_row x (row_at y [] (screen_lines b.width b.height))
      ≡ in_row x (row_at y [] b.clip_region.lines)
in_screen x y b o = elim (o.lines y) [
  | inl nothing ↦ rw nothing refl
  | inr (from, to) ↦
      rw (leb-true (pos 0) y from, leb-false (pos b.height) y to)
        (all_within x (pos 0) b.width (row_at y [] b.clip_region.lines) (omega arith) (o.rows y)
          (o.ends y))
]

-- A TempClipRect around a drawing that succeeds and keeps the size of the bitmap, on which the
-- clip region in order lies, keeps what was drawn, and the clip region covers the same pixels
-- at the end as before.
pub with_clip_rect_restores :
    (lo x y : ℤ) (region : Region) (draw : BitmapImage → Status BitmapImage) (b drawn : BitmapImage)
    → HasSize b
    → OnScreen b
    → IsRegion lo b.clip_region
    → lo ≤ℤ negsuc 0
    → draw (set_clip_region region b) ≡ ok drawn
    → (drawn.width ≡ b.width) × (drawn.height ≡ b.height)
    → (after : BitmapImage) × (with_clip_rect region draw b ≡ ok after)
      × (after.bitmap ≡ drawn.bitmap)
      × (in_region x y after.clip_region ≡ in_region x y b.clip_region)
unfolding with_clip_rect set_clip_region
with_clip_rect_restores lo x y region draw b drawn s o r below e same = (
  set_clip_region b.clip_region drawn,
  rw e refl,
  refl,
  ap (in_row x) (clip_row lo y b.clip_region drawn size r below)
      ∙ in_row-intersect_row x lo (negsuc 0) (row_at y [] b.clip_region.lines)
          (row_at y [] (screen_lines drawn.width drawn.height))
          (row_at-Row y lo [] b.clip_region.lines tt r.1)
          (row_at-Row y (negsuc 0) [] (screen_lines drawn.width drawn.height) tt
            (screen_lines-IsRegion drawn size).1)
      ∙ ap₂
          (λ w h.
            in_row x (row_at y [] b.clip_region.lines) && in_row x (row_at y [] (screen_lines w h)))
          same.0 same.1
      ∙ in_screen x y b o,
)
  where
    size : HasSize drawn
    size = record {
      width_pos = rw same.0 s.width_pos;
      height_pos = rw same.1 s.height_pos;
      width16 = rw same.0 s.width16;
      height16 = rw same.1 s.height16;
    }
