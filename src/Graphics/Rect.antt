-- ===== src/Graphics/Rect.antt =====
-- The rectangles of emu/graphics/graphics_helpers.h. The fields are int16_t, and what is stored
-- in one is converted to int16_t.
use cyder.Base.{
  ℕ, ◌+◌, ◌*◌, ◌/◌, ◌%◌, ◌≡◌, ◌<◌, ◌≤◌, refl, Bool, true, false, ◌&&◌, ◌||◌, ◌==◌, if◌then◌else◌,
  arith, ℤ, pos, negsuc, ltb_ℤ, leb_ℤ, eqb_ℤ, max_ℤ, min_ℤ, ◌+ℤ◌, ◌-ℤ◌, ◌≤ℤ◌, ◌<ℤ◌, wrap16, IsInt16,
  wrap16_id, int_laws, eq_of_parts, pos_part, neg_part,
}
pub mod Laws

-- grafport_types.tdef
pub record Rect : Type 0 where
  pub top : ℤ
  pub left : ℤ
  pub bottom : ℤ
  pub right : ℤ

pub record Point : Type 0 where
  pub y : ℤ
  pub x : ℤ

abbrev pub zero_rect : Rect
zero_rect = record { top = pos 0; left = pos 0; bottom = pos 0; right = pos 0 }

-- For a width that is not negative.
unfoldable pub pixel_width_to_bytes : ℕ → ℕ
pixel_width_to_bytes width_px =
    let width_bytes = width_px / 8 in if width_px % 8 == 0 then width_bytes else width_bytes + 1

unfoldable pub offset_rect : Rect → ℤ → ℤ → Rect
offset_rect rect dh dv = record {
  top = wrap16 (rect.top +ℤ dv);
  left = wrap16 (rect.left +ℤ dh);
  bottom = wrap16 (rect.bottom +ℤ dv);
  right = wrap16 (rect.right +ℤ dh);
}

unfoldable pub validate_rect : Rect → Rect
validate_rect rect =
    if leb_ℤ rect.bottom rect.top || leb_ℤ rect.right rect.left then zero_rect else rect

unfoldable pub inset_rect : Rect → ℤ → ℤ → Rect
unfolding validate_rect
inset_rect rect dh dv = validate_rect record {
  top = wrap16 (rect.top +ℤ dv);
  left = wrap16 (rect.left +ℤ dh);
  bottom = wrap16 (rect.bottom -ℤ dv);
  right = wrap16 (rect.right -ℤ dh);
}

-- The offsets are int16_t parameters.
unfoldable pub normalize_rect : Rect → Rect
unfolding offset_rect
normalize_rect rect = offset_rect rect (wrap16 (pos 0 -ℤ rect.left)) (wrap16 (pos 0 -ℤ rect.top))

unfoldable pub union_rect : Rect → Rect → Rect
union_rect r1 r2 = record {
  top = min_ℤ r1.top r2.top;
  left = min_ℤ r1.left r2.left;
  bottom = max_ℤ r1.bottom r2.bottom;
  right = max_ℤ r1.right r2.right;
}

unfoldable pub intersect_rect : Rect → Rect → Rect
unfolding validate_rect
intersect_rect r1 r2 = validate_rect record {
  top = max_ℤ r1.top r2.top;
  left = max_ℤ r1.left r2.left;
  bottom = min_ℤ r1.bottom r2.bottom;
  right = min_ℤ r1.right r2.right;
}

unfoldable pub is_zero_rect : Rect → Bool
is_zero_rect rect =
    eqb_ℤ rect.top (pos 0)
    && eqb_ℤ rect.bottom (pos 0)
    && eqb_ℤ rect.left (pos 0)
    && eqb_ℤ rect.right (pos 0)

-- The differences are of type int.
unfoldable pub is_empty_rect : Rect → Bool
is_empty_rect rect =
    leb_ℤ (rect.bottom -ℤ rect.top) (pos 0) || leb_ℤ (rect.right -ℤ rect.left) (pos 0)

unfoldable pub contains_rect : Rect → Rect → Bool
contains_rect parent child =
    leb_ℤ parent.top child.top
    && leb_ℤ parent.left child.left
    && leb_ℤ child.bottom parent.bottom
    && leb_ℤ child.right parent.right

unfoldable pub equal_rect : Rect → Rect → Bool
equal_rect r1 r2 =
    eqb_ℤ r1.top r2.top
    && eqb_ℤ r1.left r2.left
    && eqb_ℤ r1.bottom r2.bottom
    && eqb_ℤ r1.right r2.right

unfoldable pub point_in_rect : Point → Rect → Bool
point_in_rect pt rect =
    leb_ℤ rect.left pt.x && ltb_ℤ pt.x rect.right && leb_ℤ rect.top pt.y && ltb_ℤ pt.y rect.bottom

unfoldable pub rect_in_rect : Rect → Rect → Bool
rect_in_rect inset rect =
    leb_ℤ rect.left inset.left
    && leb_ℤ inset.right rect.right
    && leb_ℤ rect.top inset.top
    && leb_ℤ inset.bottom rect.bottom

unfoldable pub rect_width : Rect → ℤ
rect_width rect = wrap16 (rect.right -ℤ rect.left)

unfoldable pub rect_height : Rect → ℤ
rect_height rect = wrap16 (rect.bottom -ℤ rect.top)

unfoldable pub new_rect : ℤ → ℤ → ℤ → ℤ → Rect
new_rect x y width height = record {
  top = y;
  left = x;
  bottom = wrap16 (y +ℤ height);
  right = wrap16 (x +ℤ width);
}

unfoldable pub move_rect : Rect → ℤ → ℤ → Rect
unfolding rect_width rect_height new_rect
move_rect rect x y =
    let width = rect_width rect in let height = rect_height rect in new_rect x y width height

unfoldable pub add_point : Point → Point → Point
add_point v1 v2 = record { y = wrap16 (v1.y +ℤ v2.y); x = wrap16 (v1.x +ℤ v2.x) }

unfoldable pub sub_point : Point → Point → Point
sub_point v1 v2 = record { y = wrap16 (v1.y -ℤ v2.y); x = wrap16 (v1.x -ℤ v2.x) }
