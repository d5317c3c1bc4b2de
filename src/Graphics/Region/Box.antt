-- ===== src/Graphics/Region/Box.antt =====
-- The bounding rectangle that RegionOp computes: its top, left and right.
use cyder.Base.{
  ◌≡◌, refl, sym, ap, ◌∙◌, ◌⊎◌, inl, inr, true, List, [], ◌∷◌, arith, ℤ, ltb_ℤ, Bool-cases,
  if◌then◌else◌, is_empty,
}
use cyder.Graphics.Rows.{Range, union_row}
use cyder.Graphics.Rows.Meaning.{in_row, Row}
use cyder.Graphics.Rows.Order.{union_row-Row}
use cyder.Graphics.Rect.{Rect, zero_rect}
use cyder.Graphics.Region.{
  Scanline, Region, update_rect, start_rect, region_loop, region_op, union_region,
}
use cyder.Graphics.Region.Lines.{
  row_at, in_region, Lines, Rows, IsRegion, Lines-weaken, ltb→<, ltb→≥,
}
use cyder.Graphics.Region.Order.{KeepsRow, region_loop-IsRegion}
use cyder.Graphics.Region.Widening.{
  IsBelowTop, Widens, update_rect-Widens, Widens-trans, turn_in_box,
}

in_box_unless_empty :
    (x y : ℤ) (ls : List Scanline) (final : Rect)
    → in_row x (row_at y [] ls) ≡ true
    → (row_at y [] ls ≡ []) ⊎ IsBelowTop final x y
    → IsBelowTop (if is_empty ls then zero_rect else final) x y
in_box_unless_empty x y [] final h c = ground (arith, h)
in_box_unless_empty x y (l ∷ ls) final h (inr inside) = inside
in_box_unless_empty x y (l ∷ ls) final h (inl none_yet) =
    let nothing = ap (in_row x) (sym none_yet) ∙ h in ground (arith, nothing)

module _ (op : List Range → List Range → List Range) (k : ℤ) (keeps : KeepsRow k op) where
  region_loop-Widens :
      (row1 row2 last : List Range) (r : Rect) (read1 read2 : List Scanline)
      → Widens r (region_loop op row1 row2 last r read1 read2).1
  unfolding region_loop
  region_loop-Widens row1 row2 last r [] [] = record {
    left_le = omega arith;
    right_le = omega arith;
    top_le = omega arith;
  }
  region_loop-Widens row1 row2 last r (l1 ∷ read1) [] =
      Widens-trans (update_rect-Widens l1.y (op l1.row row2) r)
        (region_loop-Widens l1.row row2 _ _ read1 [])
  region_loop-Widens row1 row2 last r [] (l2 ∷ read2) =
      Widens-trans (update_rect-Widens l2.y (op row1 l2.row) r)
        (region_loop-Widens row1 l2.row _ _ [] read2)
  region_loop-Widens row1 row2 last r (l1 ∷ read1) (l2 ∷ read2) =
      elim (Bool-cases (ltb_ℤ l1.y l2.y)) [
        | inl first ↦
            rw (first, region_loop)
              (Widens-trans (update_rect-Widens l1.y (op l1.row row2) r)
                (region_loop-Widens l1.row row2 _ _ read1 (l2 ∷ read2)))
        | inr not_first ↦ elim (Bool-cases (ltb_ℤ l2.y l1.y)) [
          | inl second ↦
              rw (not_first, second, region_loop)
                (Widens-trans (update_rect-Widens l2.y (op row1 l2.row) r)
                  (region_loop-Widens row1 l2.row _ _ (l1 ∷ read1) read2))
          | inr both ↦
              rw (not_first, both, region_loop)
                (Widens-trans (update_rect-Widens l1.y (op l1.row l2.row) r)
                  (region_loop-Widens l1.row l2.row _ _ read1 read2))
        ]
      ]

  region_loop_in_box :
      (x y lo : ℤ) (row1 row2 last : List Range) (r : Rect) (read1 read2 : List Scanline)
      → Row k row1
      → Row k row2
      → Lines lo read1 × Rows k read1
      → Lines lo read2 × Rows k read2
      → in_row x (row_at y last (region_loop op row1 row2 last r read1 read2).0) ≡ true
      → (row_at y last (region_loop op row1 row2 last r read1 read2).0 ≡ last)
        ⊎ IsBelowTop (region_loop op row1 row2 last r read1 read2).1 x y
  unfolding region_loop
  region_loop_in_box x y lo row1 row2 last r [] [] w1 w2 o1 o2 = λ h. inl refl
  region_loop_in_box x y lo row1 row2 last r (l1 ∷ read1) [] w1 w2 o1 o2 =
      let new = op l1.row row2 in
      let r' = update_rect l1.y new r in
      let wf =
        region_loop-IsRegion op k keeps l1.y l1.row row2 new r' read1 [] o1.1.0 w2 (o1.0.1, o1.1.1)
          (tt, tt) in
      turn_in_box x y l1.y k new last _ r _ (region_loop-Widens l1.row row2 new r' read1 [])
        (keeps _ _ o1.1.0 w2) wf.0
        (region_loop_in_box x y l1.y l1.row row2 new r' read1 [] o1.1.0 w2 (o1.0.1, o1.1.1)
          (tt, tt))
  region_loop_in_box x y lo row1 row2 last r [] (l2 ∷ read2) w1 w2 o1 o2 =
      let new = op row1 l2.row in
      let r' = update_rect l2.y new r in
      let wf =
        region_loop-IsRegion op k keeps l2.y row1 l2.row new r' [] read2 w1 o2.1.0 (tt, tt)
          (o2.0.1, o2.1.1) in
      turn_in_box x y l2.y k new last _ r _ (region_loop-Widens row1 l2.row new r' [] read2)
        (keeps _ _ w1 o2.1.0) wf.0
        (region_loop_in_box x y l2.y row1 l2.row new r' [] read2 w1 o2.1.0 (tt, tt)
          (o2.0.1, o2.1.1))
  region_loop_in_box x y lo row1 row2 last r (l1 ∷ read1) (l2 ∷ read2) w1 w2 o1 o2 =
      elim (Bool-cases (ltb_ℤ l1.y l2.y)) [
        | inl first ↦
            let new = op l1.row row2 in
            let r' = update_rect l1.y new r in
            let next2 : Lines l1.y (l2 ∷ read2) × Rows k (l2 ∷ read2) =
              ((ltb→< l1.y l2.y first, o2.0.1), o2.1) in
            let wf =
              region_loop-IsRegion op k keeps l1.y l1.row row2 new r' read1 (l2 ∷ read2) o1.1.0 w2
                (o1.0.1, o1.1.1) next2 in
            rw (first, region_loop)
              (turn_in_box x y l1.y k new last _ r _
                (region_loop-Widens l1.row row2 new r' read1 (l2 ∷ read2)) (keeps _ _ o1.1.0 w2)
                wf.0
                (region_loop_in_box x y l1.y l1.row row2 new r' read1 (l2 ∷ read2) o1.1.0 w2
                  (o1.0.1, o1.1.1) next2))
        | inr not_first ↦ elim (Bool-cases (ltb_ℤ l2.y l1.y)) [
          | inl second ↦
              let new = op row1 l2.row in
              let r' = update_rect l2.y new r in
              let next1 : Lines l2.y (l1 ∷ read1) × Rows k (l1 ∷ read1) =
                ((ltb→< l2.y l1.y second, o1.0.1), o1.1) in
              let wf =
                region_loop-IsRegion op k keeps l2.y row1 l2.row new r' (l1 ∷ read1) read2 w1 o2.1.0
                  next1 (o2.0.1, o2.1.1) in
              rw (not_first, second, region_loop)
                (turn_in_box x y l2.y k new last _ r _
                  (region_loop-Widens row1 l2.row new r' (l1 ∷ read1) read2) (keeps _ _ w1 o2.1.0)
                  wf.0
                  (region_loop_in_box x y l2.y row1 l2.row new r' (l1 ∷ read1) read2 w1 o2.1.0 next1
                    (o2.0.1, o2.1.1)))
          | inr both ↦
              let new = op l1.row l2.row in
              let r' = update_rect l1.y new r in
              let next2 : Lines l1.y read2 × Rows k read2 =
                (Lines-weaken l2.y l1.y read2 (ltb→≥ l2.y l1.y both) o2.0.1, o2.1.1) in
              let wf =
                region_loop-IsRegion op k keeps l1.y l1.row l2.row new r' read1 read2 o1.1.0 o2.1.0
                  (o1.0.1, o1.1.1) next2 in
              rw (not_first, both, region_loop)
                (turn_in_box x y l1.y k new last _ r _
                  (region_loop-Widens l1.row l2.row new r' read1 read2) (keeps _ _ o1.1.0 o2.1.0)
                  wf.0
                  (region_loop_in_box x y l1.y l1.row l2.row new r' read1 read2 o1.1.0 o2.1.0
                    (o1.0.1, o1.1.1) next2))
        ]
      ]

  -- A point of the region that RegionOp gives is in its rectangle, but for the bottom.
  region_op_in_box :
      (x y : ℤ) (r1 r2 : Region)
      → IsRegion k r1
      → IsRegion k r2
      → in_region x y (region_op op r1 r2) ≡ true
      → IsBelowTop (region_op op r1 r2).rect x y
  unfolding region_op
  region_op_in_box x y r1 r2 o1 o2 h =
      in_box_unless_empty x y _ _ h
        (region_loop_in_box x y k [] [] [] start_rect r1.lines r2.lines tt tt o1 o2 h)

-- For two regions in order, a point of their union is not left of, not right of and not above
-- the rectangle that is computed for it, which is the zero rectangle only where nothing is
-- written; nothing is said of its bottom.
in_region_box-union_region :
    (x y lo : ℤ) (r1 r2 : Region)
    → IsRegion lo r1
    → IsRegion lo r2
    → in_region x y (union_region r1 r2) ≡ true
    → IsBelowTop (union_region r1 r2).rect x y
unfolding union_region
in_region_box-union_region x y lo r1 r2 o1 o2 h =
    region_op_in_box union_row lo (union_row-Row lo) x y r1 r2 o1 o2 h
