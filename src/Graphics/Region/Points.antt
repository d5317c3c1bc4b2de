-- ===== src/Graphics/Region/Points.antt =====
-- The operations on regions, as operations on sets of points.
use cyder.Base.{◌≡◌, refl, ap, ◌∙◌, not, ◌&&◌, ◌||◌, List, [], ◌∷◌, ℤ, leb_ℤ, Bool-cases, inl, inr}
use cyder.Graphics.Rows.{Range, union_row, intersect_row, subtract_row}
use cyder.Graphics.Rows.Meaning.{in_row, Row}
use cyder.Graphics.Rows.Combine.{in_row-union_row, in_row-intersect_row}
use cyder.Graphics.Rows.Subtract.{in_row-subtract_row}
use cyder.Graphics.Region.{
  Scanline, Region, start_rect, region_op, union_region, intersect_region, subtract_region,
}
use cyder.Graphics.Region.Lines.{row_at, in_region, Rows, IsRegion, row_at-region_loop}

pub row_at-Row :
    (y lo : ℤ) (row : List Range) (ls : List Scanline)
    → Row lo row
    → Rows lo ls
    → Row lo (row_at y row ls)
row_at-Row y lo row [] o os = o
row_at-Row y lo row (l ∷ ls) o os = elim (Bool-cases (leb_ℤ l.y y)) [
  | inl past ↦ rw past (row_at-Row y lo l.row ls os.0 os.1)
  | inr before ↦ rw before o
]

-- For two regions in order, a point is in their union exactly if it is in one of them.
pub in_region-union_region :
    (x y lo : ℤ) (r1 r2 : Region)
    → IsRegion lo r1
    → IsRegion lo r2
    → in_region x y (union_region r1 r2) ≡ in_region x y r1 || in_region x y r2
unfolding union_region region_op
in_region-union_region x y lo r1 r2 o1 o2 =
    ap (in_row x)
      (row_at-region_loop union_row y lo [] [] [] start_rect r1.lines r2.lines o1.0 o2.0 refl)
    ∙ in_row-union_row x lo (row_at y [] r1.lines) (row_at y [] r2.lines)
        (row_at-Row y lo [] r1.lines tt o1.1) (row_at-Row y lo [] r2.lines tt o2.1)

-- For two regions in order, a point is in their intersection exactly if it is in both.
pub in_region-intersect_region :
    (x y lo : ℤ) (r1 r2 : Region)
    → IsRegion lo r1
    → IsRegion lo r2
    → in_region x y (intersect_region r1 r2) ≡ in_region x y r1 && in_region x y r2
unfolding intersect_region region_op intersect_row
in_region-intersect_region x y lo r1 r2 o1 o2 =
    ap (in_row x)
      (row_at-region_loop intersect_row y lo [] [] [] start_rect r1.lines r2.lines o1.0 o2.0 refl)
    ∙ in_row-intersect_row x lo lo (row_at y [] r1.lines) (row_at y [] r2.lines)
        (row_at-Row y lo [] r1.lines tt o1.1) (row_at-Row y lo [] r2.lines tt o2.1)

-- For two regions in order, a point is in their difference exactly if it is in the first and
-- not in the second.
pub in_region-subtract_region :
    (x y lo : ℤ) (r1 r2 : Region)
    → IsRegion lo r1
    → IsRegion lo r2
    → in_region x y (subtract_region r1 r2) ≡ in_region x y r1 && not (in_region x y r2)
unfolding subtract_region region_op subtract_row
in_region-subtract_region x y lo r1 r2 o1 o2 =
    ap (in_row x)
      (row_at-region_loop subtract_row y lo [] [] [] start_rect r1.lines r2.lines o1.0 o2.0 refl)
    ∙ in_row-subtract_row x lo lo (row_at y [] r1.lines) (row_at y [] r2.lines)
        (row_at-Row y lo [] r1.lines tt o1.1) (row_at-Row y lo [] r2.lines tt o2.1)
