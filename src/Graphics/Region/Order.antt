-- ===== src/Graphics/Region/Order.antt =====
-- The order of the scanlines that RegionOp writes.
use cyder.Base.{List, [], ◌∷◌, ◌++◌, arith, ℤ, ltb_ℤ, ◌<ℤ◌, Bool-cases, inl, inr}
use cyder.Graphics.Rows.{Range, union_row, intersect_row, subtract_row}
use cyder.Graphics.Rows.Meaning.{Row}
use cyder.Graphics.Rows.Order.{union_row-Row, intersect_row-Row}
use cyder.Graphics.Rows.Remainder.{subtract_row-Row}
use cyder.Graphics.Rect.{Rect}
use cyder.Graphics.Region.{
  Scanline, Region, row_eq, write_changed, start_rect, region_loop, region_op, union_region,
  intersect_region, subtract_region,
}
use cyder.Graphics.Region.Lines.{Lines, Rows, IsRegion, Lines-weaken, ltb→<, ltb→≥}

-- An operation that gives rows in order from rows in order.
abbrev pub KeepsRow : ℤ → (List Range → List Range → List Range) → Type 0
KeepsRow k op = (r s : List Range) → Row k r → Row k s → Row k (op r s)

module _ (op : List Range → List Range → List Range) (k : ℤ) (keeps : KeepsRow k op) where
  write_changed-IsRegion :
      (lo y : ℤ) (new last : List Range) (rest : List Scanline)
      → lo <ℤ y
      → Row k new
      → Lines y rest × Rows k rest
      → Lines lo (write_changed y new last ++ rest) × Rows k (write_changed y new last ++ rest)
  unfolding write_changed
  write_changed-IsRegion lo y new last rest h r o = elim (Bool-cases (row_eq new last)) [
    | inl same ↦ rw same (Lines-weaken y lo rest (omega (arith, h)) o.0, o.1)
    | inr differs ↦ rw differs ((h, o.0), (r, o.1))
  ]

  -- The loop writes scanlines in order.
  pub region_loop-IsRegion :
      (lo : ℤ) (row1 row2 last : List Range) (rect : Rect) (read1 read2 : List Scanline)
      → Row k row1
      → Row k row2
      → Lines lo read1 × Rows k read1
      → Lines lo read2 × Rows k read2
      → Lines lo (region_loop op row1 row2 last rect read1 read2).0
        × Rows k (region_loop op row1 row2 last rect read1 read2).0
  unfolding region_loop
  region_loop-IsRegion lo row1 row2 last rect [] [] w1 w2 o1 o2 = (tt, tt)
  region_loop-IsRegion lo row1 row2 last rect (l1 ∷ read1) [] w1 w2 o1 o2 =
      write_changed-IsRegion lo l1.y _ last _ o1.0.0 (keeps _ _ o1.1.0 w2)
        (region_loop-IsRegion l1.y l1.row row2 _ _ read1 [] o1.1.0 w2 (o1.0.1, o1.1.1) o2)
  region_loop-IsRegion lo row1 row2 last rect [] (l2 ∷ read2) w1 w2 o1 o2 =
      write_changed-IsRegion lo l2.y _ last _ o2.0.0 (keeps _ _ w1 o2.1.0)
        (region_loop-IsRegion l2.y row1 l2.row _ _ [] read2 w1 o2.1.0 o1 (o2.0.1, o2.1.1))
  region_loop-IsRegion lo row1 row2 last rect (l1 ∷ read1) (l2 ∷ read2) w1 w2 o1 o2 =
      elim (Bool-cases (ltb_ℤ l1.y l2.y)) [
        | inl first ↦
            rw (first, region_loop)
              (write_changed-IsRegion lo l1.y _ last _ o1.0.0 (keeps _ _ o1.1.0 w2) (
                region_loop-IsRegion l1.y l1.row row2 _ _ read1 (l2 ∷ read2) o1.1.0 w2
                  (o1.0.1, o1.1.1) ((ltb→< l1.y l2.y first, o2.0.1), o2.1)))
        | inr not_first ↦ elim (Bool-cases (ltb_ℤ l2.y l1.y)) [
          | inl second ↦
              rw (not_first, second, region_loop)
                (write_changed-IsRegion lo l2.y _ last _ o2.0.0 (keeps _ _ w1 o2.1.0) (
                  region_loop-IsRegion l2.y row1 l2.row _ _ (l1 ∷ read1) read2 w1 o2.1.0
                    ((ltb→< l2.y l1.y second, o1.0.1), o1.1) (o2.0.1, o2.1.1)))
          | inr both ↦
              let o2' = Lines-weaken l2.y l1.y read2 (ltb→≥ l2.y l1.y both) o2.0.1 in
              rw (not_first, both, region_loop)
                (write_changed-IsRegion lo l1.y _ last _ o1.0.0 (keeps _ _ o1.1.0 o2.1.0) (
                  region_loop-IsRegion l1.y l1.row l2.row _ _ read1 read2 o1.1.0 o2.1.0
                    (o1.0.1, o1.1.1) (o2', o2.1.1)))
        ]
      ]

-- The union of two regions in order is a region in order: its scanlines go down, and the ranges
-- of each are not empty and apart from left to right.
pub union_region-IsRegion :
    (lo : ℤ) (r1 r2 : Region) → IsRegion lo r1 → IsRegion lo r2 → IsRegion lo (union_region r1 r2)
unfolding union_region region_op
union_region-IsRegion lo r1 r2 o1 o2 =
    region_loop-IsRegion union_row lo (union_row-Row lo) lo [] [] [] start_rect r1.lines r2.lines tt
      tt o1 o2

-- The intersection of two regions in order is a region in order.
pub intersect_region-IsRegion :
    (lo : ℤ) (r1 r2 : Region)
    → IsRegion lo r1
    → IsRegion lo r2
    → IsRegion lo (intersect_region r1 r2)
unfolding intersect_region region_op
intersect_region-IsRegion lo r1 r2 o1 o2 =
    region_loop-IsRegion intersect_row lo (intersect_row-Row lo) lo [] [] [] start_rect r1.lines
      r2.lines tt tt o1 o2

-- The difference of two regions in order is a region in order.
pub subtract_region-IsRegion :
    (lo : ℤ) (r1 r2 : Region)
    → IsRegion lo r1
    → IsRegion lo r2
    → IsRegion lo (subtract_region r1 r2)
unfolding subtract_region region_op
subtract_region-IsRegion lo r1 r2 o1 o2 =
    region_loop-IsRegion subtract_row lo (λ r s. subtract_row-Row lo lo r s) lo [] [] [] start_rect
      r1.lines r2.lines tt tt o1 o2
