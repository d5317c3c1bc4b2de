-- ===== src/Graphics/Tests.antt =====
-- The theorems on rectangles and regions at small instances.
use cyder.Memory.Bytes.{host_value, read_bytes}
use cyder.Base.{
  ◌+ℤ◌, All, IsInt16, crash, ok, wrap16, ◌≡◌, refl, true, not, ◌&&◌, ◌||◌, [], ◌∷◌, arith, ℤ, pos,
  negsuc,
}
use cyder.Graphics.Rows.{Range}
use cyder.Graphics.Rect.{Rect, Point}
use cyder.Graphics.Region.{
  Region, union_region, intersect_region, subtract_region, write_lines, offset_lines,
}
use cyder.Graphics.Region.Lines.{in_region, IsRegion}
use cyder.Graphics.Region.Points.{
  in_region-union_region, in_region-intersect_region, in_region-subtract_region,
}
use cyder.Graphics.Region.Data.{offset_owned_data}
use cyder.Graphics.Region.Data.Reads.{Fits}
use cyder.Graphics.Region.Data.Refines.{offset_owned_data-write_lines}

abbrev range : ℤ → ℤ → Range
range start end = record { start = start; end = end }

abbrev square : Rect
square = record { top = pos 0; left = pos 0; bottom = pos 10; right = pos 10 }

abbrev shifted : Rect
shifted = record { top = negsuc 4; left = pos 5; bottom = pos 5; right = pos 15 }

abbrev corner : Point
corner = record { y = pos 2; x = pos 7 }

abbrev region_a : Region
region_a = record {
  rect = square;
  lines =
      record { y = pos 0; row = range (pos 0) (pos 4) ∷ range (pos 6) (pos 10) ∷ [] }
      ∷ record { y = pos 10; row = [] }
      ∷ [];
}

abbrev region_b : Region
region_b = record {
  rect = shifted;
  lines =
      record { y = negsuc 4; row = range (pos 3) (pos 8) ∷ [] }
      ∷ record { y = pos 5; row = [] }
      ∷ [];
}

abbrev low : ℤ
low = negsuc 32768

region_a-IsRegion : IsRegion low region_a
region_a-IsRegion = (
  (omega arith, (omega arith, tt)),
  ((omega arith, omega arith, (omega arith, omega arith, tt)), (tt, tt)),
)

region_b-IsRegion : IsRegion low region_b
region_b-IsRegion = ((omega arith, (omega arith, tt)), ((omega arith, omega arith, tt), (tt, tt)))

in_region-union_region_example :
    in_region (pos 5) (pos 2) (union_region region_a region_b)
    ≡ in_region (pos 5) (pos 2) region_a || in_region (pos 5) (pos 2) region_b
in_region-union_region_example =
    in_region-union_region (pos 5) (pos 2) low region_a region_b region_a-IsRegion region_b-IsRegion

in_region-intersect_region_example :
    in_region (pos 7) (pos 2) (intersect_region region_a region_b)
    ≡ in_region (pos 7) (pos 2) region_a && in_region (pos 7) (pos 2) region_b
in_region-intersect_region_example =
    in_region-intersect_region (pos 7) (pos 2) low region_a region_b region_a-IsRegion
      region_b-IsRegion

in_region-subtract_region_example :
    in_region (pos 2) (pos 2) (subtract_region region_a region_b)
    ≡ in_region (pos 2) (pos 2) region_a && not (in_region (pos 2) (pos 2) region_b)
in_region-subtract_region_example =
    in_region-subtract_region (pos 2) (pos 2) low region_a region_b region_a-IsRegion
      region_b-IsRegion

in_both : in_region (pos 7) (pos 2) (union_region region_a region_b) ≡ true
unfolding union_region
in_both = refl

fits : Fits region_a.lines
fits = (omega arith, (omega arith, tt))

values : All IsInt16 (write_lines region_a.lines)
unfolding write_lines wrap16
values = (
  (omega arith, omega arith),
  (
    (omega arith, omega arith),
    (
      (omega arith, omega arith),
      (
        (omega arith, omega arith),
        (
          (omega arith, omega arith),
          (
            (omega arith, omega arith),
            ((omega arith, omega arith), ((omega arith, omega arith), tt)),
          ),
        ),
      ),
    ),
  ),
)

offset_owned_data_example :
    offset_owned_data (write_lines region_a.lines) (pos 3) (negsuc 3)
    ≡ ok (write_lines (offset_lines (pos 3) (negsuc 3) region_a.lines))
unfolding write_lines
offset_owned_data_example =
    offset_owned_data-write_lines (pos 3) (negsuc 3) region_a.lines fits values (omega arith)

moved_data :
    offset_owned_data
      (pos 0 ∷ pos 4 ∷ pos 0 ∷ pos 4 ∷ pos 6 ∷ pos 10 ∷ pos 10 ∷ pos 0 ∷ [])
      (pos 3)
      (negsuc 3)
    ≡ ok (negsuc 3 ∷ pos 4 ∷ pos 3 ∷ pos 7 ∷ pos 9 ∷ pos 13 ∷ pos 6 ∷ pos 0 ∷ [])
unfolding offset_owned_data host_value read_bytes ◌+ℤ◌
moved_data = refl

-- A count of -1 is taken for a row of 2 ^ 64 - 2 bytes, which is read past the end of the memory.
negative_count : offset_owned_data (pos 0 ∷ negsuc 0 ∷ []) (pos 0) (pos 0) ≡ crash
unfolding offset_owned_data host_value read_bytes
negative_count = refl
