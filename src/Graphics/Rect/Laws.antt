-- ===== src/Graphics/Rect/Laws.antt =====
-- What the operations on rectangles mean for the points in them.
use cyder.Base.{
  ℕ, ◌*◌, ◌≡◌, ◌≤◌, refl, ap₂, sym, ◌∙◌, Bool, true, false, Bool-cases, inl, inr, ◌&&◌, arith, ℤ,
  pos, ltb_ℤ, leb_ℤ, max_ℤ, min_ℤ, ◌+ℤ◌, ◌-ℤ◌, wrap16, IsInt16, wrap16_id, +ℤ_parts, -ℤ_parts,
  eq_of_parts,
}
use cyder.Graphics.Rect.{
  Rect, Point, zero_rect, pixel_width_to_bytes, validate_rect, normalize_rect, union_rect,
  intersect_rect, contains_rect, point_in_rect, rect_in_rect, rect_width, rect_height,
}

-- The bytes of a row hold its pixels, and one byte less does not.
pub pixel_width_to_bytes-least :
    (width k : ℕ)
    → (width ≤ 8 * pixel_width_to_bytes width) × (width ≤ 8 * k → pixel_width_to_bytes width ≤ k)
unfolding pixel_width_to_bytes
pixel_width_to_bytes-least width k = ground arith

nowhere_inside : (lo hi x : ℤ) → leb_ℤ hi lo ≡ true → leb_ℤ lo x && ltb_ℤ x hi ≡ false
nowhere_inside lo hi x h = ground (arith, h)

no_column : (p q s t : Bool) → p && q ≡ false → p && q && s && t ≡ false
no_column p q s t h = ground arith

no_line : (p q s t : Bool) → s && t ≡ false → p && q && s && t ≡ false
no_line p q s t h = ground arith

point_in_rect-zero_rect : (pt : Point) → point_in_rect pt zero_rect ≡ false
unfolding point_in_rect
point_in_rect-zero_rect pt =
    no_column (leb_ℤ (pos 0) pt.x) (ltb_ℤ pt.x (pos 0)) (leb_ℤ (pos 0) pt.y) (ltb_ℤ pt.y (pos 0))
      (nowhere_inside (pos 0) (pos 0) pt.x refl)

no_lines_lem : (pt : Point) (r : Rect) → leb_ℤ r.bottom r.top ≡ true → point_in_rect pt r ≡ false
unfolding point_in_rect
no_lines_lem pt r h =
    no_line (leb_ℤ r.left pt.x) (ltb_ℤ pt.x r.right) (leb_ℤ r.top pt.y) (ltb_ℤ pt.y r.bottom)
      (nowhere_inside r.top r.bottom pt.y h)

no_columns_lem : (pt : Point) (r : Rect) → leb_ℤ r.right r.left ≡ true → point_in_rect pt r ≡ false
unfolding point_in_rect
no_columns_lem pt r h =
    no_column (leb_ℤ r.left pt.x) (ltb_ℤ pt.x r.right) (leb_ℤ r.top pt.y) (ltb_ℤ pt.y r.bottom)
      (nowhere_inside r.left r.right pt.x h)

point_in_rect-validate_rect :
    (pt : Point) (r : Rect) → point_in_rect pt (validate_rect r) ≡ point_in_rect pt r
unfolding validate_rect
point_in_rect-validate_rect pt r = elim (Bool-cases (leb_ℤ r.bottom r.top)) [
  | inl no_lines ↦ rw no_lines (point_in_rect-zero_rect pt ∙ sym (no_lines_lem pt r no_lines))
  | inr lines ↦ elim (Bool-cases (leb_ℤ r.right r.left)) [
    | inl no_columns ↦
        rw (lines, no_columns) (point_in_rect-zero_rect pt ∙ sym (no_columns_lem pt r no_columns))
    | inr columns ↦ rw (lines, columns) refl
  ]
]

leb-max : (l l' x : ℤ) → leb_ℤ (max_ℤ l l') x ≡ leb_ℤ l x && leb_ℤ l' x
leb-max l l' x = ground arith

ltb-min : (r r' x : ℤ) → ltb_ℤ x (min_ℤ r r') ≡ ltb_ℤ x r && ltb_ℤ x r'
ltb-min r r' x = ground arith

leb-min : (r r' x : ℤ) → leb_ℤ x (min_ℤ r r') ≡ leb_ℤ x r && leb_ℤ x r'
leb-min r r' x = ground arith

min_first : (a b : ℤ) → leb_ℤ (min_ℤ a b) a ≡ true
min_first a b = ground arith

min_second : (a b : ℤ) → leb_ℤ (min_ℤ a b) b ≡ true
min_second a b = ground arith

max_first : (a b : ℤ) → leb_ℤ a (max_ℤ a b) ≡ true
max_first a b = ground arith

max_second : (a b : ℤ) → leb_ℤ b (max_ℤ a b) ≡ true
max_second a b = ground arith

pair_up :
    (a b c d a' b' c' d' : Bool)
    → (a && a') && (b && b') && (c && c') && (d && d')
      ≡ (a && b && c && d) && (a' && b' && c' && d')
pair_up a b c d a' b' c' d' = ground arith

ap_and :
    {a b c d a' b' c' d' : Bool}
    → a ≡ a'
    → b ≡ b'
    → c ≡ c'
    → d ≡ d'
    → a && b && c && d ≡ a' && b' && c' && d'
ap_and p q r s = ap₂ ◌&&◌ (ap₂ ◌&&◌ (ap₂ ◌&&◌ p q) r) s

point_in_both :
    (pt : Point) (r1 r2 : Rect)
    → point_in_rect pt record {
      top = max_ℤ r1.top r2.top;
      left = max_ℤ r1.left r2.left;
      bottom = min_ℤ r1.bottom r2.bottom;
      right = min_ℤ r1.right r2.right;
    }
      ≡ point_in_rect pt r1 && point_in_rect pt r2
unfolding point_in_rect
point_in_both pt r1 r2 =
    ap_and (leb-max r1.left r2.left pt.x) (ltb-min r1.right r2.right pt.x)
      (leb-max r1.top r2.top pt.y) (ltb-min r1.bottom r2.bottom pt.y)
    ∙ pair_up (leb_ℤ r1.left pt.x) (ltb_ℤ pt.x r1.right) (leb_ℤ r1.top pt.y) (ltb_ℤ pt.y r1.bottom)
        (leb_ℤ r2.left pt.x) (ltb_ℤ pt.x r2.right) (leb_ℤ r2.top pt.y) (ltb_ℤ pt.y r2.bottom)

-- A point is in the intersection of two rectangles exactly if it is in both, also where they do
-- not meet and the result is the zero rectangle.
point_in_rect-intersect_rect :
    (pt : Point) (r1 r2 : Rect)
    → point_in_rect pt (intersect_rect r1 r2) ≡ point_in_rect pt r1 && point_in_rect pt r2
unfolding intersect_rect
point_in_rect-intersect_rect pt r1 r2 = point_in_rect-validate_rect pt _ ∙ point_in_both pt r1 r2

-- The union of two rectangles contains both, and a rectangle contains it exactly if it contains
-- both.
union_rect-least :
    (r1 r2 r : Rect)
    → (contains_rect (union_rect r1 r2) r1 ≡ true)
      × (contains_rect (union_rect r1 r2) r2 ≡ true)
      × (contains_rect r (union_rect r1 r2) ≡ contains_rect r r1 && contains_rect r r2)
unfolding union_rect contains_rect
union_rect-least r1 r2 r = (
  ap_and (min_first r1.top r2.top) (min_first r1.left r2.left) (max_first r1.bottom r2.bottom)
      (max_first r1.right r2.right),
  ap_and (min_second r1.top r2.top) (min_second r1.left r2.left) (max_second r1.bottom r2.bottom)
      (max_second r1.right r2.right),
  ap_and (leb-min r1.top r2.top r.top) (leb-min r1.left r2.left r.left)
        (leb-max r1.bottom r2.bottom r.bottom) (leb-max r1.right r2.right r.right)
      ∙ pair_up (leb_ℤ r.top r1.top) (leb_ℤ r.left r1.left) (leb_ℤ r1.bottom r.bottom)
          (leb_ℤ r1.right r.right) (leb_ℤ r.top r2.top) (leb_ℤ r.left r2.left)
          (leb_ℤ r2.bottom r.bottom) (leb_ℤ r2.right r.right),
)

parts_4 :
    {a b c d : Bool} → a && b && c && d ≡ true → (a ≡ true) × (b ≡ true) × (c ≡ true) × (d ≡ true)
parts_4 {a = a} {b = b} {c = c} {d = d} h = ground (arith, h)

leb_trans : (a b c : ℤ) → leb_ℤ a b ≡ true → leb_ℤ b c ≡ true → leb_ℤ a c ≡ true
leb_trans a b c h k = ground (arith, h, k)

ltb_leb_trans : (a b c : ℤ) → ltb_ℤ a b ≡ true → leb_ℤ b c ≡ true → ltb_ℤ a c ≡ true
ltb_leb_trans a b c h k = ground (arith, h, k)

-- A point of a rectangle that lies in another is a point of that one.
pub rect_in_rect-point :
    (pt : Point) (inset rect : Rect)
    → rect_in_rect inset rect ≡ true
    → point_in_rect pt inset ≡ true
    → point_in_rect pt rect ≡ true
unfolding rect_in_rect point_in_rect
rect_in_rect-point pt inset rect h k =
    let sides = parts_4 h in
    let inside = parts_4 k in
    ap_and (leb_trans rect.left inset.left pt.x sides.0 inside.0)
      (ltb_leb_trans pt.x inset.right rect.right inside.1 sides.1)
      (leb_trans rect.top inset.top pt.y sides.2 inside.2)
      (ltb_leb_trans pt.y inset.bottom rect.bottom inside.3 sides.3)

zero_sum : (a : ℤ) → a +ℤ (pos 0 -ℤ a) ≡ pos 0
zero_sum a = eq_of_parts _ _ (omega (arith, +ℤ_parts a (pos 0 -ℤ a), -ℤ_parts (pos 0) a))

back_sum : (a b : ℤ) → b +ℤ (pos 0 -ℤ a) ≡ b -ℤ a
back_sum a b =
    eq_of_parts _ _ (omega (arith, +ℤ_parts b (pos 0 -ℤ a), -ℤ_parts (pos 0) a, -ℤ_parts b a))

-- For a left and a top whose negations fit an int16_t, NormalizeRect gives the rectangle at the
-- origin with the width and the height of the rectangle.
normalize_rect_lem :
    (r : Rect)
    → IsInt16 (pos 0 -ℤ r.left)
    → IsInt16 (pos 0 -ℤ r.top)
    → normalize_rect r
      ≡ record { top = pos 0; left = pos 0; bottom = rect_height r; right = rect_width r }
unfolding normalize_rect rect_height rect_width wrap16
normalize_rect_lem r h h' =
    rw
      (
        wrap16_id (pos 0 -ℤ r.left) h,
        wrap16_id (pos 0 -ℤ r.top) h',
        zero_sum r.left,
        zero_sum r.top,
        back_sum r.left r.right,
        back_sum r.top r.bottom,
      )
      refl
