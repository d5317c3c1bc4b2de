-- ===== src/Graphics/Rows/Remainder.antt =====
-- The order of the ranges that Subtract gives.
use cyder.Base.{
  subst, sym, Bool-cases, inl, inr, List, [], ◌∷◌, ◌++◌, arith, ℤ, ltb_ℤ, leb_ℤ, max_ℤ, ◌≤ℤ◌, ◌<ℤ◌,
}
use mathlib.Core.List.{append_assoc}
use cyder.Graphics.Rows.{Range, skip_before, push_before, push_rest, carve, subtract_row}
use cyder.Graphics.Rows.Meaning.{Row, Row-weaken}
use cyder.Graphics.Rows.Subtract.{ltb→lt_ℤ, more_left, skip_before_lem, carve_left}

rest-Row :
    (k current : ℤ) (a : Range) (rest : List Range)
    → k ≤ℤ current
    → k ≤ℤ a.end
    → Row a.end rest
    → Row k (push_rest a current ++ rest)
unfolding push_rest
rest-Row k current a rest b e o = ground (arith, Row-weaken a.end k rest e o)

before-Row :
    (k current : ℤ) (a b : Range) (rest : List Range)
    → k ≤ℤ current
    → current <ℤ a.end
    → b.start <ℤ a.end
    → ((m : ℤ) → m ≤ℤ max_ℤ current b.end → m ≤ℤ a.end → Row m rest)
    → b.start <ℤ b.end
    → Row k (push_before a current b ++ rest)
unfolding push_before
before-Row k current a b rest c f e o n = ground (arith, o k, o b.start)

carve-Row :
    (k lo current : ℤ) (a : Range) (bs rest : List Range)
    → Row lo bs
    → current <ℤ a.end
    → k ≤ℤ current
    → Row a.end rest
    → Row k ((carve a current bs).0 ++ rest)
unfolding carve
carve-Row k lo current a [] rest o c l r = rest-Row k current a rest l (omega arith) r
carve-Row k lo current a (b ∷ bs) rest o c l r = elim (Bool-cases (ltb_ℤ b.start a.end)) [
  | inl inside ↦
      let inside' = ltb→lt_ℤ b.start a.end inside in
      elim (Bool-cases (leb_ℤ a.end (max_ℤ current b.end))) [
        | inl covered ↦
            rw (inside, covered, carve)
              (subst (Row k)
                (sym
                  (append_assoc (push_before a current b) (push_rest a (max_ℤ current b.end)) rest))
                (before-Row k current a b _ l c inside'
                  (λ m h g. rest-Row m (max_ℤ current b.end) a rest h g r) o.1))
        | inr more ↦
            rw (inside, more, carve)
              (subst (Row k)
                (sym (
                  append_assoc (push_before a current b) (carve a (max_ℤ current b.end) bs).0 rest))
                (before-Row k current a b _ l c inside'
                  (λ m h g.
                    carve-Row m b.end (max_ℤ current b.end) a bs rest o.2
                      (more_left current a b more) h r)
                  o.1))
      ]
  | inr outside ↦ rw (outside, carve) (rest-Row k current a rest l (omega (arith, l, c)) r)
]

pub subtract_row-Row :
    (lo lo' : ℤ) (as' bs : List Range) → Row lo as' → Row lo' bs → Row lo (subtract_row as' bs)
unfolding subtract_row
subtract_row-Row lo lo' [] bs o o' = tt
subtract_row-Row lo lo' (a ∷ as') bs o o' =
    let skipped = skip_before_lem a.start lo' a bs o' in
    let bs' = skip_before a bs in
    let left = carve_left a.start lo' a.start a bs' skipped.1 o.1 in
    carve-Row lo lo' a.start a bs' (subtract_row as' (carve a a.start bs').1) skipped.1 o.1 o.0
      (subtract_row-Row a.end lo' as' (carve a a.start bs').1 o.2 left.1)
