-- ===== src/Windows/Outline.antt =====
-- What the loop of DragGrayRegion does to the screen: emu/window_manager.cc. The pattern is that of
-- the grey frames.
pub mod Trace
use cyder.Base.{
  ℕ, ◌*◌, ◌<◌, ◌≡◌, refl, sym, ap, ◌∙◌, Bool, true, false, List, [], ◌∷◌, ◌++◌, ◌==◌, All,
  Bool-cases, if◌then◌else◌, inl, inr, arith, Status, ok, ◌>>=◌, ℤ, negsuc, ◌+ℤ◌, wrap16, IsInt16,
  ◌<ℤ◌, ◌≤ℤ◌,
}
use cyder.Events.Defs.{EventRecord, mouse_move, mouse_up}
use cyder.Graphics.Rect.{Rect, Point, new_rect, rect_width, rect_height, pixel_width_to_bytes}
use cyder.Graphics.Region.{Region}
use cyder.Graphics.Region.Lines.{IsRegion}
use cyder.Graphics.Bitmap.{
  Byte, x_or, xor, BitmapImage, frame_rect, set_clip_region, screen_region, with_clip_rect,
}
use cyder.Graphics.Bitmap.Strides.{bit_of, HoldsLines}
use cyder.Graphics.Bitmap.Area.{OnScreen}
use cyder.Graphics.Bitmap.Turned.{SameFrame, Turned, both_Turned}
use cyder.Graphics.Bitmap.Frame.{frame_mask, frame_rect-Turned}
use cyder.Graphics.Bitmap.Clip.{HasSize, set_clip_region-OnScreen}
use cyder.Windows.Drag.{Holds}

-- The outline after a move of the mouse.
unfoldable pub moved_outline : Point → Rect → EventRecord → Rect
unfolding new_rect rect_width rect_height
moved_outline target_offset outline event =
    new_rect (wrap16 (event.where_.x +ℤ target_offset.x))
      (wrap16 (event.where_.y +ℤ target_offset.y)) (rect_width outline) (rect_height outline)

-- The screen after some events: each drawing is in the life of a TempClipRect on the desktop.
unfoldable pub drag_screen :
    (ℤ → Byte) → Region → Point → Rect → List EventRecord → BitmapImage → Status BitmapImage
unfolding moved_outline frame_rect with_clip_rect
drag_screen pattern desktop target_offset outline [] screen = ok screen
drag_screen pattern desktop target_offset outline (event ∷ events) screen =
    let moved = moved_outline target_offset outline event in
    elim (event.what == mouse_move) [
      | true ↦
          with_clip_rect desktop
            (λ s. frame_rect outline pattern x_or s >>= λ t. frame_rect moved pattern x_or t) screen
          >>= λ screen'. drag_screen pattern desktop target_offset moved events screen'
      | false ↦ elim (event.what == mouse_up) [
        | true ↦ with_clip_rect desktop (λ s. frame_rect outline pattern x_or s) screen
        | false ↦ drag_screen pattern desktop target_offset outline events screen
      ]
    ]

-- A rectangle that is not empty from top to bottom.
pub record IsFrame (r : Rect) : Type 0 where
  pub top16 : IsInt16 r.top
  pub bottom16 : IsInt16 r.bottom
  pub lines : r.top <ℤ r.bottom

-- Every outline of a drag is one.
abbrev pub HasFrames : Point → Rect → List EventRecord → Type 0
HasFrames target_offset outline [] = IsFrame outline
HasFrames target_offset outline (event ∷ events) =
    IsFrame outline
    × HasFrames target_offset
        (if event.what == mouse_move then moved_outline target_offset outline event else outline)
        events

pub first_IsFrame :
    (target_offset : Point) (outline : Rect) (events : List EventRecord)
    → HasFrames target_offset outline events
    → IsFrame outline
first_IsFrame target_offset outline [] g = g
first_IsFrame target_offset outline (event ∷ events) g = g.0
