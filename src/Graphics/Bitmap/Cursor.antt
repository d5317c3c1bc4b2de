-- ===== src/Graphics/Bitmap/Cursor.antt =====
-- The cursor over the scanlines of the clip region: each advance leads to the row in force.
use cyder.Base.{◌≡◌, refl, List, [], ◌∷◌, ℤ, ltb_ℤ, ◌≤ℤ◌, Bool-cases, inl, inr, arith}
use cyder.Graphics.Rows.{Range}
use cyder.Graphics.Region.{Scanline}
use cyder.Graphics.Region.Lines.{row_at, leb-true, leb-false, ltb→≥, ltb→<}
use cyder.Graphics.Bitmap.{try_advance_scanline}

pub try_advance-row_at :
    (y : ℤ) (ls : List Scanline) (output : List Range)
    → (try_advance_scanline y ls output).1 ≡ row_at y output ls
unfolding try_advance_scanline
try_advance-row_at y [] output = refl
try_advance-row_at y (l ∷ ls) output = elim (Bool-cases (ltb_ℤ y l.y)) [
  | inl before ↦ rw (before, leb-false l.y y (ltb→< y l.y before)) refl
  | inr past ↦ rw (past, leb-true l.y y (ltb→≥ y l.y past)) (try_advance-row_at y ls l.row)
]

-- At later lines the cursor sees what it would have seen without the advance.
pub row_at-try_advance :
    (y later : ℤ) (ls : List Scanline) (output : List Range)
    → y ≤ℤ later
    → row_at later (try_advance_scanline y ls output).1 (try_advance_scanline y ls output).0
      ≡ row_at later output ls
unfolding try_advance_scanline
row_at-try_advance y later [] output h = refl
row_at-try_advance y later (l ∷ ls) output h = elim (Bool-cases (ltb_ℤ y l.y)) [
  | inl before ↦ rw before refl
  | inr past ↦
      rw (past, leb-true l.y later (omega (arith, ltb→≥ y l.y past, h)))
        (row_at-try_advance y later ls l.row h)
]
