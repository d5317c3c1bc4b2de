-- ===== src/Graphics/Region/Widening.antt =====
-- One turn of the loop of RegionOp and its rectangle.
use cyder.Base.{
  ◌≡◌, refl, sym, ap, ◌∙◌, ◌⊎◌, inl, inr, Bool, true, false, not, ◌&&◌, ◌||◌, List, [], ◌∷◌, ◌++◌,
  arith, ℤ, ltb_ℤ, leb_ℤ, ◌≤ℤ◌, ◌<ℤ◌, min_ℤ, max_ℤ, Bool-cases,
}
use cyder.Graphics.Rows.{Range}
use cyder.Graphics.Rows.Meaning.{in_row, Row, in_row_before}
use cyder.Graphics.Rect.{Rect}
use cyder.Graphics.Region.{Scanline, row_eq, last_end, write_changed, update_rect}
use cyder.Graphics.Region.Lines.{row_at, Lines, row_eq_lem, leb→≤, leb→>, row_at-before}

-- A point is not left of, not right of and not above a rectangle.
abbrev pub IsBelowTop : Rect → ℤ → ℤ → Type 0
IsBelowTop r x y = (r.left ≤ℤ x) × (x <ℤ r.right) × (r.top ≤ℤ y)

pub record Widens (r r' : Rect) : Type 0 where
  pub left_le : r'.left ≤ℤ r.left
  pub right_le : r.right ≤ℤ r'.right
  pub top_le : r'.top ≤ℤ r.top

min_le_right : (a b : ℤ) → min_ℤ a b ≤ℤ b
min_le_right a b = ground arith

min_le_left : (a b : ℤ) → min_ℤ a b ≤ℤ a
min_le_left a b = ground arith

le_max_right : (a b : ℤ) → b ≤ℤ max_ℤ a b
le_max_right a b = ground arith

le_max_left : (a b : ℤ) → a ≤ℤ max_ℤ a b
le_max_left a b = ground arith

pub update_rect-Widens : (y : ℤ) (row : List Range) (r : Rect) → Widens r (update_rect y row r)
unfolding update_rect
update_rect-Widens y [] r = record {
  left_le = omega arith;
  right_le = omega arith;
  top_le = omega arith;
}
update_rect-Widens y (v ∷ row) r = record {
  left_le = min_le_right v.start r.left;
  right_le = le_max_right (last_end row v.end) r.right;
  top_le = min_le_right y r.top;
}

last_end_ge : (lo e : ℤ) (row : List Range) → Row e row → e ≤ℤ last_end row e
last_end_ge lo e [] o = omega arith
last_end_ge lo e (v ∷ row) o = omega (arith, last_end_ge e v.end row o.2, o.0, o.1)

before_end :
    (x e : ℤ) (row : List Range)
    → Row e row
    → ltb_ℤ x e || in_row x row ≡ true
    → x <ℤ last_end row e
before_end x e [] o h = ground (arith, h)
before_end x e (v ∷ row) o h =
    before_end x v.end row o.2 (
      spread (ltb_ℤ x e) (ltb_ℤ x v.end) (leb_ℤ v.start x) (in_row x row) (earlier x e v o.0 o.1) h)
  where
    earlier :
        (x e : ℤ) (v : Range)
        → e ≤ℤ v.start
        → v.start <ℤ v.end
        → ltb_ℤ x e && not (ltb_ℤ x v.end) ≡ false
    earlier x e v h k = ground (arith, h, k)

    spread : (p q s r : Bool) → p && not q ≡ false → p || (s && q || r) ≡ true → q || r ≡ true
    spread p q s r h k = ground (arith, h, k)

row_bounds :
    (x lo : ℤ) (v : Range) (row : List Range)
    → Row lo (v ∷ row)
    → in_row x (v ∷ row) ≡ true
    → (v.start ≤ℤ x) × (x <ℤ last_end row v.end)
row_bounds x lo v row o h = (
  elim (Bool-cases (leb_ℤ v.start x)) [
    | inl from ↦ leb→≤ v.start x from
    | inr before ↦
        let none_yet =
          in_row_before x v.start (v ∷ row) (omega arith, o.1, o.2) (leb→> v.start x before) in
        ground (arith, h, none_yet)
  ],
  before_end x v.end row o.2 (second (leb_ℤ v.start x) (ltb_ℤ x v.end) (in_row x row) h),
)
  where
    second : (p q r : Bool) → p && q || r ≡ true → q || r ≡ true
    second p q r h = ground (arith, h)

update_rect-IsBelowTop :
    (x y y0 lo : ℤ) (row : List Range) (r : Rect)
    → Row lo row
    → in_row x row ≡ true
    → y0 ≤ℤ y
    → IsBelowTop (update_rect y0 row r) x y
unfolding update_rect
update_rect-IsBelowTop x y y0 lo [] r o h l = ground (arith, h)
update_rect-IsBelowTop x y y0 lo (v ∷ row) r o h l =
    let bounds = row_bounds x lo v row o h in
    (
      omega (arith, bounds.0, min_le_left v.start r.left),
      omega (arith, bounds.1, le_max_left (last_end row v.end) r.right),
      omega (arith, l, min_le_left y0 r.top),
    )

Widens-IsBelowTop : (x y : ℤ) (r r' : Rect) → Widens r r' → IsBelowTop r x y → IsBelowTop r' x y
Widens-IsBelowTop x y r r' w b =
    (omega (arith, w.left_le, b.0), omega (arith, w.right_le, b.1), omega (arith, w.top_le, b.2))

pub Widens-trans : {a b c : Rect} → Widens a b → Widens b c → Widens a c
Widens-trans p q = record {
  left_le = omega (arith, p.left_le, q.left_le);
  right_le = omega (arith, p.right_le, q.right_le);
  top_le = omega (arith, p.top_le, q.top_le);
}

row_at_turn :
    (y y0 : ℤ) (new last : List Range) (rest : List Scanline)
    → leb_ℤ y0 y ≡ true
    → row_at y last (write_changed y0 new last ++ rest) ≡ row_at y new rest
unfolding write_changed
row_at_turn y y0 new last rest past = elim (Bool-cases (row_eq new last)) [
  | inl same ↦ rw same (ap (λ row. row_at y row rest) (sym (row_eq_lem new last same)))
  | inr differs ↦ rw (differs, past) refl
]

-- One turn of the loop: the row in force is the one before, or the point is in the final rectangle.
pub turn_in_box :
    (x y y0 lo : ℤ) (new last : List Range) (rest : List Scanline) (r final : Rect)
    → Widens (update_rect y0 new r) final
    → Row lo new
    → Lines y0 rest
    → (in_row x (row_at y new rest) ≡ true → (row_at y new rest ≡ new) ⊎ IsBelowTop final x y)
    → in_row x (row_at y last (write_changed y0 new last ++ rest)) ≡ true
    → (row_at y last (write_changed y0 new last ++ rest) ≡ last) ⊎ IsBelowTop final x y
unfolding write_changed
turn_in_box x y y0 lo new last rest r final w o ls ih h = elim (Bool-cases (leb_ℤ y0 y)) [
  | inl past ↦
      let h' = ap (in_row x) (sym (row_at_turn y y0 new last rest past)) ∙ h in
      elim (ih h') [
        | inl still ↦ inr (
            Widens-IsBelowTop x y (update_rect y0 new r) final w (
              update_rect-IsBelowTop x y y0 lo new r o (ap (in_row x) (sym still) ∙ h')
                (leb→≤ y0 y past)))
        | inr inside ↦ inr inside
      ]
  | inr before ↦ elim (Bool-cases (row_eq new last)) [
    | inl same ↦ inl (rw same (row_at-before y y0 last rest ls (omega (arith, leb→> y0 y before))))
    | inr differs ↦ inl (rw (differs, before) refl)
  ]
]
