-- ===== src/Graphics/Rows.antt =====
-- The row operations of emu/graphics/region.cc: a scanline is a list of ranges, which a reader
-- takes one by one, and each loop gives the ranges that it pushes from there on. A range is two
-- int16_t; the row holds whole ranges.
pub mod Meaning
pub mod Combine
pub mod Order
pub mod Subtract
pub mod Remainder
use cyder.Base.{
  ℕ, Bool, true, false, List, [], ◌∷◌, ◌++◌, Option, none, some, ℤ, ltb_ℤ, leb_ℤ, max_ℤ, min_ℤ,
  ◌+ℤ◌, wrap16, if◌then◌else◌, map,
}

pub record Range : Type 0 where
  pub start : ℤ
  pub end : ℤ

-- One turn of the loop of Union: what is pushed, and the range under construction.
unfoldable pub extend_union : Range → Option Range → List Range × Range
extend_union next none = ([], next)
extend_union next (some u) =
    if leb_ℤ next.start u.end
    then ([], record { start = u.start; end = max_ℤ next.end u.end })
    else (u ∷ [], next)

-- Union from the state (r1, r2, union_range); `none` is `!has_range`.
unfoldable pub union_loop : List Range → List Range → Option Range → List Range
unfolding extend_union
union_loop [] [] none = []
union_loop [] [] (some u) = u ∷ []
union_loop (v1 ∷ r1) [] u = let turn = extend_union v1 u in turn.0 ++ union_loop r1 [] (some turn.1)
union_loop [] (v2 ∷ r2) u = let turn = extend_union v2 u in turn.0 ++ union_loop [] r2 (some turn.1)
union_loop (v1 ∷ r1) (v2 ∷ r2) u = elim (ltb_ℤ v1.start v2.start) [
  | true ↦ (extend_union v1 u).0 ++ union_loop r1 (v2 ∷ r2) (some (extend_union v1 u).1)
  | false ↦ (extend_union v2 u).0 ++ union_loop (v1 ∷ r1) r2 (some (extend_union v2 u).1)
]

unfoldable pub union_row : List Range → List Range → List Range
unfolding union_loop
union_row r1 r2 = union_loop r1 r2 none

unfoldable pub intersect_range : Range → Range → List Range
intersect_range v1 v2 =
    let both : Range = record { start = max_ℤ v1.start v2.start; end = min_ℤ v1.end v2.end } in
    if ltb_ℤ both.start both.end then both ∷ [] else []

unfoldable pub intersect_row : List Range → List Range → List Range
unfolding intersect_range
intersect_row [] r2 = []
intersect_row (v1 ∷ r1) [] = []
intersect_row (v1 ∷ r1) (v2 ∷ r2) = elim (ltb_ℤ v1.end v2.end) [
  | true ↦ intersect_range v1 v2 ++ intersect_row r1 (v2 ∷ r2)
  | false ↦ intersect_range v1 v2 ++ intersect_row (v1 ∷ r1) r2
]

-- Subtract. The head of the second list is `potential_overlap`; the empty list is std::nullopt.
-- The first inner loop: ranges that end before A starts.
unfoldable pub skip_before : Range → List Range → List Range
skip_before a [] = []
skip_before a (b ∷ bs) = if leb_ℤ b.end a.start then skip_before a bs else b ∷ bs

-- The part of A from `current_start` up to an overlap, and up to its own end, if there is one.
unfoldable pub push_before : Range → ℤ → Range → List Range
push_before a current_start b =
    if ltb_ℤ current_start b.start
    then record { start = current_start; end = min_ℤ b.start a.end } ∷ []
    else []

unfoldable pub push_rest : Range → ℤ → List Range
push_rest a current_start =
    if ltb_ℤ current_start a.end then record { start = current_start; end = a.end } ∷ [] else []

-- The second inner loop and the push after it, from `current_start` on: what is pushed, and the
-- overlaps that are left. After the `break` nothing of A is left to push.
unfoldable pub carve : Range → ℤ → List Range → List Range × List Range
carve a current_start [] = (push_rest a current_start, [])
carve a current_start (b ∷ bs) =
    let current_start' = max_ℤ current_start b.end in
    let rest = carve a current_start' bs in
    if ltb_ℤ b.start a.end
    then if leb_ℤ a.end current_start'
      then (push_before a current_start b ++ push_rest a current_start', b ∷ bs)
      else (push_before a current_start b ++ rest.0, rest.1)
    else (push_rest a current_start, b ∷ bs)

unfoldable pub subtract_row : List Range → List Range → List Range
unfolding skip_before carve push_before push_rest
subtract_row [] bs = []
subtract_row (a ∷ as') bs =
    let carved = carve a a.start (skip_before a bs) in carved.0 ++ subtract_row as' carved.1

-- Offset of a row; the sums are stored in int16_t.
unfoldable pub offset_row : ℤ → List Range → List Range
unfolding ◌+ℤ◌ wrap16
offset_row offset [] = []
offset_row offset (v ∷ r) =
    record { start = wrap16 (v.start +ℤ offset); end = wrap16 (v.end +ℤ offset) }
    ∷ offset_row offset r
