-- ===== src/Graphics/Rows/Order.antt =====
-- The order of the ranges that Union and Intersect give.
use cyder.Base.{
  Bool-cases, inl, inr, ◌⊎◌, List, [], ◌∷◌, ◌++◌, some, arith, ℤ, ltb_ℤ, leb_ℤ, min_ℤ, ◌≤ℤ◌, ◌<ℤ◌,
}
use cyder.Graphics.Rows.{Range, extend_union, union_loop, union_row, intersect_range, intersect_row}
use cyder.Graphics.Rows.Meaning.{Row, Row-weaken}

intersect_range-Row :
    (k : ℤ) (v1 v2 : Range) (rest : List Range)
    → (k ≤ℤ v1.start) ⊎ (k ≤ℤ v2.start)
    → Row k rest
    → Row (min_ℤ v1.end v2.end) rest
    → Row k (intersect_range v1 v2 ++ rest)
unfolding intersect_range
intersect_range-Row k v1 v2 rest a b c = ground arith

pub intersect_loop-Row :
    (k lo lo' : ℤ) (r1 r2 : List Range)
    → (k ≤ℤ lo) ⊎ (k ≤ℤ lo')
    → Row lo r1
    → Row lo' r2
    → Row k (intersect_row r1 r2)
unfolding intersect_row
intersect_loop-Row k lo lo' [] r2 b o1 o2 = tt
intersect_loop-Row k lo lo' (v1 ∷ r1) [] b o1 o2 = tt
intersect_loop-Row k lo lo' (v1 ∷ r1) (v2 ∷ r2) b o1 o2 = elim (Bool-cases (ltb_ℤ v1.end v2.end)) [
  | inl first ↦
      let rest = λ (m : ℤ) (h : (m ≤ℤ v1.end) ⊎ (m ≤ℤ v2.start)).
        intersect_loop-Row m v1.end v2.start r1 (v2 ∷ r2) h o1.2 (omega arith, o2.1, o2.2) in
      rw (first, intersect_row)
        (intersect_range-Row k v1 v2 _ (ground arith) (rest k (ground arith))
          (rest _ (inl (ground arith))))
  | inr second ↦
      let rest = λ (m : ℤ) (h : (m ≤ℤ v1.start) ⊎ (m ≤ℤ v2.end)).
        intersect_loop-Row m v1.start v2.end (v1 ∷ r1) r2 h (omega arith, o1.1, o1.2) o2.2 in
      rw (second, intersect_row)
        (intersect_range-Row k v1 v2 _ (ground arith) (rest k (ground arith))
          (rest _ (inr (ground arith))))
]

-- The intersection of rows in order is a row in order.
pub intersect_row-Row :
    (lo : ℤ) (r1 r2 : List Range) → Row lo r1 → Row lo r2 → Row lo (intersect_row r1 r2)
intersect_row-Row lo r1 r2 o1 o2 = intersect_loop-Row lo lo lo r1 r2 (inl (omega arith)) o1 o2

turn-Row :
    (k : ℤ) (next u : Range) (rest : Range → List Range)
    → u.start ≤ℤ next.start
    → next.start <ℤ next.end
    → u.start <ℤ u.end
    → k ≤ℤ u.start
    → ((m : ℤ) (w : Range)
        → w.start ≤ℤ next.start
        → w.start <ℤ w.end
        → m ≤ℤ w.start
        → Row m (rest w))
    → Row k ((extend_union next (some u)).0 ++ rest (extend_union next (some u)).1)
unfolding extend_union
turn-Row k next u rest s n c b r = elim (Bool-cases (leb_ℤ next.start u.end)) [
  | inl joined ↦ rw joined (r k _ s (ground arith) b)
  | inr apart ↦ rw apart (b, c, r u.end next (omega arith) n (ground arith))
]

-- From the state of its loop Union gives ranges from the current one on, each apart from the next.
union_loop-Row :
    (k lo : ℤ) (r1 r2 : List Range) (u : Range)
    → Row lo r1
    → Row lo r2
    → u.start ≤ℤ lo
    → u.start <ℤ u.end
    → k ≤ℤ u.start
    → Row k (union_loop r1 r2 (some u))
unfolding union_loop extend_union
union_loop-Row k lo [] [] u o1 o2 s n b = (b, n, tt)
union_loop-Row k lo (v1 ∷ r1) [] u o1 o2 s n b =
    turn-Row k v1 u (λ w. union_loop r1 [] (some w)) (omega (arith, o1.0)) o1.1 n b
      (λ m w a c d.
        union_loop-Row m v1.start r1 [] w (Row-weaken v1.end v1.start r1 (omega (arith, o1.1)) o1.2)
          tt a c d)
union_loop-Row k lo [] (v2 ∷ r2) u o1 o2 s n b =
    turn-Row k v2 u (λ w. union_loop [] r2 (some w)) (omega (arith, o2.0)) o2.1 n b
      (λ m w a c d.
        union_loop-Row m v2.start [] r2 w tt
          (Row-weaken v2.end v2.start r2 (omega (arith, o2.1)) o2.2) a c d)
union_loop-Row k lo (v1 ∷ r1) (v2 ∷ r2) u o1 o2 s n b =
    elim (Bool-cases (ltb_ℤ v1.start v2.start)) [
      | inl first ↦
          rw (first, union_loop)
            (turn-Row k v1 u (λ w. union_loop r1 (v2 ∷ r2) (some w)) (omega (arith, o1.0)) o1.1 n b
              (λ m w a c d.
                union_loop-Row m v1.start r1 (v2 ∷ r2) w
                  (Row-weaken v1.end v1.start r1 (omega (arith, o1.1)) o1.2)
                  (ground arith, o2.1, o2.2) a c d))
      | inr second ↦
          rw (second, union_loop)
            (turn-Row k v2 u (λ w. union_loop (v1 ∷ r1) r2 (some w)) (omega (arith, o2.0)) o2.1 n b
              (λ m w a c d.
                union_loop-Row m v2.start (v1 ∷ r1) r2 w (ground arith, o1.1, o1.2)
                  (Row-weaken v2.end v2.start r2 (omega (arith, o2.1)) o2.2) a c d))
    ]

-- The union of rows in order is a row in order.
pub union_row-Row : (lo : ℤ) (r1 r2 : List Range) → Row lo r1 → Row lo r2 → Row lo (union_row r1 r2)
unfolding union_row union_loop extend_union
union_row-Row lo [] [] o1 o2 = tt
union_row-Row lo (v1 ∷ r1) [] o1 o2 =
    union_loop-Row lo v1.start r1 [] v1 (Row-weaken v1.end v1.start r1 (omega (arith, o1.1)) o1.2)
      tt (omega arith) o1.1 o1.0
union_row-Row lo [] (v2 ∷ r2) o1 o2 =
    union_loop-Row lo v2.start [] r2 v2 tt
      (Row-weaken v2.end v2.start r2 (omega (arith, o2.1)) o2.2) (omega arith) o2.1 o2.0
union_row-Row lo (v1 ∷ r1) (v2 ∷ r2) o1 o2 = elim (Bool-cases (ltb_ℤ v1.start v2.start)) [
  | inl first ↦
      rw (first, union_loop)
        (union_loop-Row lo v1.start r1 (v2 ∷ r2) v1
          (Row-weaken v1.end v1.start r1 (omega (arith, o1.1)) o1.2) (ground arith, o2.1, o2.2)
          (omega arith) o1.1 o1.0)
  | inr second ↦
      rw (second, union_loop)
        (union_loop-Row lo v2.start (v1 ∷ r1) r2 v2 (ground arith, o1.1, o1.2)
          (Row-weaken v2.end v2.start r2 (omega (arith, o2.1)) o2.2) (omega arith) o2.1 o2.0)
]
