-- ===== src/Graphics/Region.antt =====
-- The regions of emu/graphics/region.cc. A region is its bounding rectangle and its scanlines,
-- each the row from its y on up to the next scanline's; write_lines says how scanlines
-- lie in the data, as int16_t. The row operation is a parameter, as it is of
-- RegionOp.
pub mod Lines
pub mod Widening
pub mod Box
pub mod Order
pub mod Points
pub mod Data
use cyder.Base.{
  ℕ, zero, suc, ◌+◌, ◌*◌, Bool, true, false, not, ◌&&◌, List, [], ◌∷◌, ◌++◌, Status, ok, crash,
  ◌>>=◌, ℤ, pos, negsuc, ltb_ℤ, eqb_ℤ, max_ℤ, min_ℤ, ◌+ℤ◌, wrap16, if◌then◌else◌, is_empty, take,
  drop, pos_part, ltb, leb, length,
}
use cyder.Graphics.Rows.{Range, union_row, intersect_row, subtract_row, offset_row}
use cyder.Graphics.Rect.{Rect, new_rect, offset_rect, zero_rect}

pub record Scanline : Type 0 where
  pub y : ℤ
  pub row : List Range

pub record Region : Type 0 where
  pub rect : Rect
  pub lines : List Scanline

unfoldable pub new_rect_region : Rect → Region
new_rect_region rect = record {
  rect = rect;
  lines =
      record { y = rect.top; row = record { start = rect.left; end = rect.right } ∷ [] }
      ∷ record { y = rect.bottom; row = [] }
      ∷ [];
}

-- `==` of the vectors of two rows.
unfoldable pub row_eq : List Range → List Range → Bool
row_eq [] [] = true
row_eq [] (b ∷ bs) = false
row_eq (a ∷ as') [] = false
row_eq (a ∷ as') (b ∷ bs) = eqb_ℤ a.start b.start && eqb_ℤ a.end b.end && row_eq as' bs

abbrev pub last_end : List Range → ℤ → ℤ
last_end [] default = default
last_end (r ∷ rs) default = last_end rs r.end

-- What is written for one scanline, after the row that was written last.
unfoldable pub write_changed : ℤ → List Range → List Range → List Scanline
unfolding row_eq
write_changed current_y to_write last_written =
    if row_eq to_write last_written then [] else record { y = current_y; row = to_write } ∷ []

unfoldable pub update_rect : ℤ → List Range → Rect → Rect
update_rect current_y [] rect = record rect { bottom = current_y }
update_rect current_y (r ∷ rs) rect = record {
  top = min_ℤ current_y rect.top;
  left = min_ℤ r.start rect.left;
  bottom = current_y;
  right = max_ℤ (last_end rs r.end) rect.right;
}

abbrev pub start_rect : Rect
start_rect = record {
  top = pos 32767;
  left = pos 32767;
  bottom = negsuc 32767;
  right = negsuc 32767;
}

module _ (op : List Range → List Range → List Range) where
  -- The loop of RegionOp, from the rows of the current scanlines on: the scanlines that it writes,
  -- and the rectangle at its end.
  unfoldable pub region_loop :
      List Range
      → List Range
      → List Range
      → Rect
      → List Scanline
      → List Scanline
      → List Scanline × Rect
  unfolding write_changed update_rect
  region_loop row1 row2 last_written rect [] [] = ([], rect)
  region_loop row1 row2 last_written rect (l1 ∷ read1) [] =
      let to_write = op l1.row row2 in
      let rest = region_loop l1.row row2 to_write (update_rect l1.y to_write rect) read1 [] in
      (write_changed l1.y to_write last_written ++ rest.0, rest.1)
  region_loop row1 row2 last_written rect [] (l2 ∷ read2) =
      let to_write = op row1 l2.row in
      let rest = region_loop row1 l2.row to_write (update_rect l2.y to_write rect) [] read2 in
      (write_changed l2.y to_write last_written ++ rest.0, rest.1)
  region_loop row1 row2 last_written rect (l1 ∷ read1) (l2 ∷ read2) = elim (ltb_ℤ l1.y l2.y) [
    | true ↦
        let to_write = op l1.row row2 in
        let rest =
          region_loop l1.row row2 to_write (update_rect l1.y to_write rect) read1 (l2 ∷ read2) in
        (write_changed l1.y to_write last_written ++ rest.0, rest.1)
    | false ↦ elim (ltb_ℤ l2.y l1.y) [
      | true ↦
          let to_write = op row1 l2.row in
          let rest =
            region_loop row1 l2.row to_write (update_rect l2.y to_write rect) (l1 ∷ read1) read2 in
          (write_changed l2.y to_write last_written ++ rest.0, rest.1)
      | false ↦
          let to_write = op l1.row l2.row in
          let rest =
            region_loop l1.row l2.row to_write (update_rect l1.y to_write rect) read1 read2 in
          (write_changed l1.y to_write last_written ++ rest.0, rest.1)
    ]
  ]

  unfoldable pub region_op : Region → Region → Region
  unfolding region_loop
  region_op r1 r2 =
      let result = region_loop [] [] [] start_rect r1.lines r2.lines in
      record { rect = if is_empty result.0 then zero_rect else result.1; lines = result.0 }

unfoldable pub subtract_region : Region → Region → Region
unfolding region_op subtract_row
subtract_region = region_op subtract_row

unfoldable pub intersect_region : Region → Region → Region
unfolding region_op intersect_row
intersect_region = region_op intersect_row

unfoldable pub union_region : Region → Region → Region
unfolding region_op union_row
union_region = region_op union_row

abbrev pub offset_line : ℤ → ℤ → Scanline → Scanline
offset_line dx dy line = record { y = wrap16 (line.y +ℤ dy); row = offset_row dx line.row }

unfoldable pub offset_lines : ℤ → ℤ → List Scanline → List Scanline
unfolding offset_row
offset_lines dx dy [] = []
offset_lines dx dy (l ∷ ls) = offset_line dx dy l ∷ offset_lines dx dy ls

unfoldable pub offset_region : Region → ℤ → ℤ → Region
unfolding offset_lines offset_rect
offset_region r1 dx dy = record {
  rect = offset_rect r1.rect dx dy;
  lines = offset_lines dx dy r1.lines;
}

-- The int16_t of a row, and WriteScanline.
unfoldable pub row_data : List Range → List ℤ
row_data [] = []
row_data (r ∷ rs) = r.start ∷ r.end ∷ row_data rs

unfoldable pub write_scanline : Scanline → List ℤ
unfolding row_data
write_scanline line = line.y ∷ wrap16 (pos (length (row_data line.row))) ∷ row_data line.row

unfoldable pub write_lines : List Scanline → List ℤ
unfolding write_scanline
write_lines [] = []
write_lines (l ∷ ls) = write_scanline l ++ write_lines ls
