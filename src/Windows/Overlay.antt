-- ===== src/Windows/Overlay.antt =====
-- The pixels of frames and contents, and the overlay of InvalidateWindows.
use cyder.Base.{
  ℕ, suc, ◌<◌, ◌≡◌, refl, sym, ap, ◌∙◌, Bool, true, false, not, ◌&&◌, ◌||◌, List, ==_refl,
  Bool-cases, inl, inr, arith, if◌then◌else◌, ok, ℤ, negsuc, ◌<ℤ◌, leb_ℤ, ltb_ℤ, IsInt16,
}
use cyder.Graphics.Rect.{Rect, point_in_rect}
use cyder.Graphics.Region.{Region, new_rect_region}
use cyder.Graphics.Region.Lines.{in_region, IsRegion}
use cyder.Windows.Defs.{
  WindowRecord, WindowManager, store, has_title_bar, content_rect, structure_rect, updated_visible,
  updated_update,
}
use cyder.Windows.Front.{is_in}
use cyder.Windows.Turn.{content_of, turn_state}
use cyder.Windows.Refresh.{IsReady, SameWindow, Refreshed}

-- Below all lines and columns.
abbrev pub lowest : ℤ
lowest = negsuc 32768

-- A rectangle that is not empty.
pub record HasArea (r : Rect) : Type 0 where
  pub lines : r.top <ℤ r.bottom
  pub columns : r.left <ℤ r.right
  pub top16 : IsInt16 r.top
  pub left16 : IsInt16 r.left

pub new_rect_region-IsRegion : (r : Rect) → HasArea r → IsRegion lowest (new_rect_region r)
unfolding new_rect_region
new_rect_region-IsRegion r a =
    ((omega (arith, a.top16), (a.lines, tt)), ((omega (arith, a.left16), a.columns, tt), (tt, tt)))

below_lem : (y bottom : ℤ) → ltb_ℤ y bottom ≡ not (leb_ℤ bottom y)
below_lem y bottom = ground arith

in_lines : (p q b : Bool) → p && q && true && not b ≡ (if b then false else (p && q) || false)
in_lines p q b = ground arith

above_lines : (p q b : Bool) → p && q && false && b ≡ false
above_lines p q b = ground arith

pub in_region-rect_region :
    (x y : ℤ) (r : Rect)
    → in_region x y (new_rect_region r) ≡ point_in_rect (record { y = y; x = x }) r
unfolding new_rect_region point_in_rect
in_region-rect_region x y r = rw (below_lem y r.bottom) (elim (Bool-cases (leb_ℤ r.top y)) [
  | inl below ↦ rw below (elim (Bool-cases (leb_ℤ r.bottom y)) [
    | inl past ↦ rw past (sym (in_lines (leb_ℤ r.left x) (ltb_ℤ x r.right) true))
    | inr within ↦ rw within (sym (in_lines (leb_ℤ r.left x) (ltb_ℤ x r.right) false))
  ])
  | inr above ↦
      rw above (sym (above_lines (leb_ℤ r.left x) (ltb_ℤ x r.right) (not (leb_ℤ r.bottom y))))
])

-- The pixel is in the content of a window, and in its frame, by the window's place alone.
unfoldable pub in_content : ℤ → ℤ → WindowRecord → Bool
unfolding point_in_rect content_rect
in_content x y w = point_in_rect (record { y = y; x = x }) (content_rect w)

unfoldable pub in_frame : ℤ → ℤ → WindowRecord → Bool
unfolding point_in_rect structure_rect
in_frame x y w = elim (has_title_bar w) [
  | ok titled ↦ point_in_rect (record { y = y; x = x }) (structure_rect titled w)
  | _ ↦ false
]

pub in_frame-known :
    (x y : ℤ) (titled : Bool) (w : WindowRecord)
    → has_title_bar w ≡ ok titled
    → in_frame x y w ≡ point_in_rect (record { y = y; x = x }) (structure_rect titled w)
unfolding in_frame
in_frame-known x y titled w e = rw (e, in_frame) refl

-- A window that InvalidateWindows can place, with rectangles that are not empty.
pub record IsShown (m : WindowManager) (ptr : ℕ) : Type 0 where
  pub ready : IsReady m ptr
  pub content_area : HasArea (content_rect (m.records ptr))
  pub structure_area :
      (titled : Bool)
      → has_title_bar (m.records ptr) ≡ ok titled
      → HasArea (structure_rect titled (m.records ptr))

same_content : {w w' : WindowRecord} → SameWindow w w' → content_rect w' ≡ content_rect w
unfolding content_rect
same_content s = rw (s.bounds, s.port_rect) refl

same_structure :
    (titled : Bool) {w w' : WindowRecord}
    → SameWindow w w'
    → structure_rect titled w' ≡ structure_rect titled w
unfolding structure_rect content_rect
same_structure titled s = rw (s.bounds, s.port_rect) refl

same_variation : {w w' : WindowRecord} → SameWindow w w' → has_title_bar w' ≡ has_title_bar w
unfolding has_title_bar
same_variation s = rw s.variation refl

pub same_frame :
    (x y : ℤ) {w w' : WindowRecord} → SameWindow w w' → in_frame x y w' ≡ in_frame x y w
unfolding has_title_bar structure_rect content_rect in_frame
same_frame x y s = rw (s.variation, s.bounds, s.port_rect) refl

pub IsShown-Refreshed :
    {ws : List ℕ} {m m' : WindowManager} → Refreshed ws m m' → (q : ℕ) → IsShown m q → IsShown m' q
IsShown-Refreshed s q h = record {
  ready = s.still_ready q h.ready;
  content_area = rw (same_content (s.same_window q)) h.content_area;
  structure_area = λ titled e.
      rw (same_structure titled (s.same_window q))
        (h.structure_area titled (sym (same_variation (s.same_window q)) ∙ e));
}

-- The overlay when the loop comes to a window, and the regions that it leaves there.
pub record Overlaid (x y : ℤ) (covered : Bool) (p : ℕ) (m m' : WindowManager) : Type 0 where
  pub overlay : Region
  pub in_order : IsRegion lowest overlay
  pub covers : in_region x y overlay ≡ covered
  pub visible :
      m'.regions (m'.records p).visible_region ≡ updated_visible (content_of (m.records p)) overlay
  pub update :
      m'.regions (m'.records p).update_region
      ≡ updated_update
          (updated_visible (content_of (m.records p)) overlay)
          (m.regions (m.records p).visible_region)
          (m.regions (m.records p).update_region)

pub turn_visible_handle :
    (now p : ℕ) (titled : Bool) (overlay : Region) (m : WindowManager)
    → ((turn_state now p titled overlay m).records p).visible_region ≡ suc (suc m.next_handle)
unfolding turn_state
turn_visible_handle now p titled overlay m = rw (==_refl p) refl

pub turn_update_handle :
    (now p : ℕ) (titled : Bool) (overlay : Region) (m : WindowManager)
    → ((turn_state now p titled overlay m).records p).update_region ≡ suc (suc (suc m.next_handle))
unfolding turn_state
turn_update_handle now p titled overlay m = rw (==_refl p) refl

pub stored_before : {A : Type 0} (h : ℕ) (a b : A) (f : ℕ → A) → store (suc h) a (store h b f) h ≡ b
stored_before h a b f = ground arith

pub stored_last : {A : Type 0} (h : ℕ) (a : A) (f : ℕ → A) → store h a f h ≡ a
stored_last h a f = ground arith

-- What a handle stands for after the turns of other windows.
pub region_kept :
    (ws : List ℕ) (m m' : WindowManager) (field : WindowRecord → ℕ) (p k : ℕ)
    → Refreshed ws m m'
    → is_in p ws ≡ false
    → field (m.records p) ≡ k
    → k < m.next_handle
    → m'.regions (field (m'.records p)) ≡ m.regions k
region_kept ws m m' field p k s apart e l =
    ap m'.regions (ap field (s.same_record p apart) ∙ e) ∙ s.same_regions k l
