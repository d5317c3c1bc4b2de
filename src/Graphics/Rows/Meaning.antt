-- ===== src/Graphics/Rows/Meaning.antt =====
-- The set of columns that a row stands for, and rows in order.
use cyder.Base.{
  ◌≡◌, refl, Bool, false, ◌&&◌, ◌||◌, List, [], ◌∷◌, ◌++◌, arith, ℤ, ltb_ℤ, leb_ℤ, ◌≤ℤ◌, ◌<ℤ◌,
}
use cyder.Graphics.Rows.{Range}

-- A column lies in a range, and in one of the ranges of a row.
abbrev pub in_range : ℤ → Range → Bool
in_range x r = leb_ℤ r.start x && ltb_ℤ x r.end

abbrev pub in_row : ℤ → List Range → Bool
in_row x [] = false
in_row x (r ∷ rs) = in_range x r || in_row x rs

-- Ranges that are not empty, in order, the first from `lo` on.
abbrev pub Row : ℤ → List Range → Type 0
Row lo [] = Unit {0}
Row lo (r ∷ rs) = (lo ≤ℤ r.start) × (r.start <ℤ r.end) × Row r.end rs

pub in_row-append : (x : ℤ) (rs ss : List Range) → in_row x (rs ++ ss) ≡ in_row x rs || in_row x ss
in_row-append x [] ss = refl
in_row-append x (r ∷ rs) ss = ground (arith, in_row-append x rs ss)

-- Nothing of a row lies before its bound.
pub in_row_before : (x lo : ℤ) (rs : List Range) → Row lo rs → x <ℤ lo → in_row x rs ≡ false
in_row_before x lo [] o h = refl
in_row_before x lo (r ∷ rs) o h = ground (arith, in_row_before x r.end rs o.2)

pub Row-weaken : (lo lo' : ℤ) (rs : List Range) → lo' ≤ℤ lo → Row lo rs → Row lo' rs
Row-weaken lo lo' [] h o = tt
Row-weaken lo lo' (r ∷ rs) h o = (omega (arith, o.0), o.1, o.2)
