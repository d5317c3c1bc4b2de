-- ===== src/Graphics/Rows/Combine.antt =====
-- The columns of the rows that Union and Intersect give.
use cyder.Base.{
  ◌≡◌, refl, ap, ap₂, ◌∙◌, Bool, false, not, ◌&&◌, ◌||◌, List, [], ◌∷◌, ◌++◌, Option, none, some,
  arith, ℤ, ltb_ℤ, ◌≤ℤ◌, ◌<ℤ◌, Bool-cases, inl, inr,
}
use cyder.Graphics.Rows.{Range, extend_union, union_loop, union_row, intersect_range, intersect_row}
use cyder.Graphics.Rows.Meaning.{in_range, in_row, Row, in_row-append, in_row_before, Row-weaken}

abbrev in_current : ℤ → Option Range → Bool
in_current x none = false
in_current x (some u) = in_range x u

-- The range under construction begins no later than `lo` and is not empty.
abbrev Current : ℤ → Option Range → Type 0
Current lo none = Unit {0}
Current lo (some u) = (u.start ≤ℤ lo) × (u.start <ℤ u.end)

or_regroup : (a b c : Bool) → a || (b || c) ≡ a || b || c
or_regroup a b c = ground arith

or_swap : (a b c : Bool) → a || (b || c) ≡ b || (a || c)
or_swap a b c = ground arith

extend_union_lem :
    (x : ℤ) (next : Range) (u : Option Range)
    → Current next.start u
    → next.start <ℤ next.end
    → (in_row x (extend_union next u).0 || in_range x (extend_union next u).1
        ≡ in_current x u || in_range x next)
      × Current next.start (some (extend_union next u).1)
unfolding extend_union
extend_union_lem x next none c n = ground arith
extend_union_lem x next (some u) c n = ground arith

-- One turn of the loop, before a rest that stands for `others` and the new current range.
turn_lem :
    (x : ℤ) (next : Range) (u : Option Range) (rest : List Range) (others : Bool)
    → Current next.start u
    → next.start <ℤ next.end
    → in_row x rest ≡ in_range x (extend_union next u).1 || others
    → in_row x ((extend_union next u).0 ++ rest) ≡ in_current x u || (in_range x next || others)
turn_lem x next u rest others c n h =
    join (in_row x (extend_union next u).0) (in_range x (extend_union next u).1) (in_current x u)
      (in_range x next)
      (in_row-append x (extend_union next u).0 rest
        ∙ ap (◌||◌ (in_row x (extend_union next u).0)) h)
      (extend_union_lem x next u c n).0
  where
    join :
        (a b p q : Bool)
        → in_row x ((extend_union next u).0 ++ rest) ≡ a || (b || others)
        → a || b ≡ p || q
        → in_row x ((extend_union next u).0 ++ rest) ≡ p || (q || others)
    join a b p q e f = ground arith

Current-weaken : (lo lo' : ℤ) (u : Option Range) → lo ≤ℤ lo' → Current lo u → Current lo' u
Current-weaken lo lo' none h c = tt
Current-weaken lo lo' (some u) h c = (omega (arith, c.0), c.1)

union_loop_lem :
    (x lo : ℤ) (r1 r2 : List Range) (u : Option Range)
    → Row lo r1
    → Row lo r2
    → Current lo u
    → in_row x (union_loop r1 r2 u) ≡ in_current x u || (in_row x r1 || in_row x r2)
unfolding union_loop
union_loop_lem x lo [] [] none o1 o2 c = refl
union_loop_lem x lo [] [] (some u) o1 o2 c = refl
union_loop_lem x lo (v1 ∷ r1) [] u o1 o2 c =
    let c' = Current-weaken lo v1.start u o1.0 c in
    let next = extend_union_lem x v1 u c' o1.1 in
    let rest =
      union_loop_lem x v1.start r1 [] (some (extend_union v1 u).1)
        (Row-weaken v1.end v1.start r1 (omega (arith, o1.1)) o1.2) tt next.1 in
    turn_lem x v1 u _ (in_row x r1 || false) c' o1.1 rest
    ∙ ap (◌||◌ (in_current x u)) (or_regroup (in_range x v1) (in_row x r1) false)
union_loop_lem x lo [] (v2 ∷ r2) u o1 o2 c =
    let c' = Current-weaken lo v2.start u o2.0 c in
    let next = extend_union_lem x v2 u c' o2.1 in
    let rest =
      union_loop_lem x v2.start [] r2 (some (extend_union v2 u).1) tt
        (Row-weaken v2.end v2.start r2 (omega (arith, o2.1)) o2.2) next.1 in
    turn_lem x v2 u _ (in_row x r2) c' o2.1 rest
union_loop_lem x lo (v1 ∷ r1) (v2 ∷ r2) u o1 o2 c = elim (Bool-cases (ltb_ℤ v1.start v2.start)) [
  | inl first ↦
      let c' = Current-weaken lo v1.start u o1.0 c in
      let next = extend_union_lem x v1 u c' o1.1 in
      let rest =
        union_loop_lem x v1.start r1 (v2 ∷ r2) (some (extend_union v1 u).1)
          (Row-weaken v1.end v1.start r1 (omega (arith, o1.1)) o1.2) (ground arith, o2.1, o2.2)
          next.1 in
      rw (first, union_loop)
        (turn_lem x v1 u _ (in_row x r1 || in_row x (v2 ∷ r2)) c' o1.1 rest
          ∙ ap (◌||◌ (in_current x u))
              (or_regroup (in_range x v1) (in_row x r1) (in_row x (v2 ∷ r2))))
  | inr second ↦
      let c' = Current-weaken lo v2.start u o2.0 c in
      let next = extend_union_lem x v2 u c' o2.1 in
      let rest =
        union_loop_lem x v2.start (v1 ∷ r1) r2 (some (extend_union v2 u).1)
          (ground arith, o1.1, o1.2) (Row-weaken v2.end v2.start r2 (omega (arith, o2.1)) o2.2)
          next.1 in
      rw (second, union_loop)
        (turn_lem x v2 u _ (in_row x (v1 ∷ r1) || in_row x r2) c' o2.1 rest
          ∙ ap (◌||◌ (in_current x u)) (or_swap (in_range x v2) (in_row x (v1 ∷ r1)) (in_row x r2)))
]

-- A column is in the union of two rows in order exactly if it is in one of them.
pub in_row-union_row :
    (x lo : ℤ) (r1 r2 : List Range)
    → Row lo r1
    → Row lo r2
    → in_row x (union_row r1 r2) ≡ in_row x r1 || in_row x r2
unfolding union_row
in_row-union_row x lo r1 r2 o1 o2 = union_loop_lem x lo r1 r2 none o1 o2 tt

intersect_range_lem :
    (x : ℤ) (v1 v2 : Range) → in_row x (intersect_range v1 v2) ≡ in_range x v1 && in_range x v2
unfolding intersect_range
intersect_range_lem x v1 v2 = ground arith

-- Where the range that ends first is dropped, no column is lost.
drop_first :
    (a1 b1 a2 b2 p q : Bool)
    → b1 && not b2 ≡ false
    → b1 && p ≡ false
    → b2 && q ≡ false
    → a1 && b1 && (a2 && b2) || p && (a2 && b2 || q) ≡ (a1 && b1 || p) && (a2 && b2 || q)
drop_first a1 b1 a2 b2 p q f g h = ground arith

drop_second :
    (a1 b1 a2 b2 p q : Bool)
    → b2 && not b1 ≡ false
    → b1 && p ≡ false
    → b2 && q ≡ false
    → a1 && b1 && (a2 && b2) || (a1 && b1 || p) && q ≡ (a1 && b1 || p) && (a2 && b2 || q)
drop_second a1 b1 a2 b2 p q f g h = ground arith

-- A column before the end of a range is not in the ranges after it.
not_both :
    (x : ℤ) (v : Range) (rest : List Range)
    → Row v.end rest
    → ltb_ℤ x v.end && in_row x rest ≡ false
not_both x v rest o = ground (arith, in_row_before x v.end rest o)

ends_first : (x a b : ℤ) → a ≤ℤ b → ltb_ℤ x a && not (ltb_ℤ x b) ≡ false
ends_first x a b h = ground arith

-- A column is in the intersection of two rows in order exactly if it is in both.
pub in_row-intersect_row :
    (x lo lo' : ℤ) (r1 r2 : List Range)
    → Row lo r1
    → Row lo' r2
    → in_row x (intersect_row r1 r2) ≡ in_row x r1 && in_row x r2
unfolding intersect_row
in_row-intersect_row x lo lo' [] r2 o1 o2 = refl
in_row-intersect_row x lo lo' (v1 ∷ r1) [] o1 o2 = ground arith
in_row-intersect_row x lo lo' (v1 ∷ r1) (v2 ∷ r2) o1 o2 = elim (Bool-cases (ltb_ℤ v1.end v2.end)) [
  | inl first ↦
      rw (first, intersect_row)
        (in_row-append x (intersect_range v1 v2) (intersect_row r1 (v2 ∷ r2))
          ∙ ap₂ ◌||◌ (intersect_range_lem x v1 v2)
              (in_row-intersect_row x v1.end v2.start r1 (v2 ∷ r2) o1.2 (omega arith, o2.1, o2.2))
          ∙ drop_first _ _ _ _ _ _ (ends_first x v1.end v2.end (ground arith))
              (not_both x v1 r1 o1.2) (not_both x v2 r2 o2.2))
  | inr second ↦
      rw (second, intersect_row)
        (in_row-append x (intersect_range v1 v2) (intersect_row (v1 ∷ r1) r2)
          ∙ ap₂ ◌||◌ (intersect_range_lem x v1 v2)
              (in_row-intersect_row x v1.start v2.end (v1 ∷ r1) r2 (omega arith, o1.1, o1.2) o2.2)
          ∙ drop_second _ _ _ _ _ _ (ends_first x v2.end v1.end (ground arith))
              (not_both x v1 r1 o1.2) (not_both x v2 r2 o2.2))
]
