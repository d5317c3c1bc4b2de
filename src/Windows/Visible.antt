-- ===== src/Windows/Visible.antt =====
-- The visible regions that InvalidateWindows computes, and its update regions, pixel by pixel.
use cyder.Base.{
  ℕ, suc, ◌≡◌, refl, sym, ap, ap₂, fun_ext, ◌∙◌, Bool, false, not, ◌&&◌, ◌||◌, List, [], subst, ◌∷◌,
  ◌++◌, ◌==◌, All, All-map_pred, any, arith, ok, ℤ, pos,
}
use cyder.Graphics.Rect.{new_rect, rect_width}
use cyder.Graphics.Region.{Region, new_rect_region, union_region, subtract_region}
use cyder.Graphics.Region.Lines.{in_region, IsRegion}
use cyder.Graphics.Region.Order.{union_region-IsRegion, subtract_region-IsRegion}
use cyder.Graphics.Region.Points.{
  in_region-union_region, in_region-subtract_region, in_region-intersect_region,
}
use cyder.Windows.Defs.{
  WindowManager, store, content_rect, structure_rect, updated_visible, updated_update,
}
use cyder.Windows.Ops.{invalidate_loop, invalidate_windows, menu_bar_region}
use cyder.Windows.Front.{is_in}
use cyder.Windows.Turn.{content_of, structure_of, turn_state}
use cyder.Windows.Refresh.{past_turn, IsReady, step_Refreshed, invalidate_loop_lem}
use cyder.Windows.Overlay.{
  lowest, HasArea, new_rect_region-IsRegion, in_region-rect_region, in_content, in_frame,
  in_frame-known, IsShown, same_frame, IsShown-Refreshed, Overlaid, turn_visible_handle,
  turn_update_handle, stored_before, stored_last, region_kept,
}

module _ (now : ℕ) (x y : ℤ) (p : ℕ) where
  Overlaid-here :
      (overlay : Region) (back : List ℕ) (m m' : WindowManager)
      → is_in p back ≡ false
      → All (IsShown m) (p ∷ back)
      → IsRegion lowest overlay
      → invalidate_loop now (p ∷ back) overlay m ≡ ok m'
      → Overlaid x y (in_region x y overlay) p m m'
  unfolding invalidate_loop turn_state updated_visible updated_update
  Overlaid-here overlay back m m' apart shown o e =
      let r = shown.0.ready in
      let turned = turn_state now p r.titled overlay m in
      let step = step_Refreshed now p r.titled overlay m in
      let rest =
        invalidate_loop_lem now back (union_region overlay (structure_of r.titled (m.records p)))
          turned m'
          (All-map_pred (IsShown m) (IsReady turned) (λ q h. step.still_ready q h.ready) back
            shown.1)
          (past_turn now p back overlay m m' r e) in
      let visible = updated_visible (content_of (m.records p)) overlay in
      let update =
        updated_update visible (m.regions (m.records p).visible_region)
          (m.regions (m.records p).update_region) in
      let older =
        store (suc m.next_handle) (structure_of r.titled (m.records p))
          (store m.next_handle (content_of (m.records p)) m.regions) in
      record {
        overlay = overlay;
        in_order = o;
        covers = refl;
        visible =
            region_kept back turned m' (λ w. w.visible_region) p (suc (suc m.next_handle)) rest
              apart (turn_visible_handle now p r.titled overlay m) (omega arith)
            ∙ stored_before (suc (suc m.next_handle)) update visible older;
        update =
            region_kept back turned m' (λ w. w.update_region) p (suc (suc (suc m.next_handle))) rest
              apart (turn_update_handle now p r.titled overlay m) (omega arith)
            ∙ stored_last (suc (suc (suc m.next_handle))) update
                (store (suc (suc m.next_handle)) visible older);
      }

  -- The frame of a window joins the overlay.
  frame_joins :
      (m : WindowManager) (f : ℕ) (overlay : Region) (h : IsShown m f)
      → IsRegion lowest overlay
      → in_region x y (union_region overlay (structure_of h.ready.titled (m.records f)))
        ≡ in_region x y overlay || in_frame x y (m.records f)
  unfolding structure_of
  frame_joins m f overlay h o =
      in_region-union_region x y lowest overlay (structure_of h.ready.titled (m.records f)) o
        (new_rect_region-IsRegion _ (h.structure_area h.ready.titled h.ready.known))
      ∙ ap (◌||◌ (in_region x y overlay)) (
          in_region-rect_region x y (structure_rect h.ready.titled (m.records f))
          ∙ sym (in_frame-known x y h.ready.titled (m.records f) h.ready.known))

  or_false_right : (a b : Bool) → a || b ≡ false → b ≡ false
  or_false_right a b h = ground arith

  or_false_left : (a b : Bool) → a || b ≡ false → a || false ≡ false
  or_false_left a b h = ground arith

  or_assoc : (a b c : Bool) → (a || b) || c ≡ a || (b || c)
  or_assoc a b c = ground arith

  Overlaid-loop :
      (overlay : Region) (front back : List ℕ) (m m' : WindowManager)
      → is_in p front ≡ false
      → is_in p back ≡ false
      → IsReady m p
      → All (IsShown m) (front ++ p ∷ back)
      → IsRegion lowest overlay
      → invalidate_loop now (front ++ p ∷ back) overlay m ≡ ok m'
      → Overlaid x y (in_region x y overlay || any (λ q. in_frame x y (m.records q)) front) p m m'
  unfolding invalidate_loop any structure_of new_rect_region
  Overlaid-loop overlay [] back m m' _ apart here shown o e =
      subst (λ b. Overlaid x y b p m m') {x = in_region x y overlay} (ground arith)
        (Overlaid-here overlay back m m' apart shown o e)
  Overlaid-loop overlay (f ∷ front) back m m' before apart here shown o e =
      let h = shown.0 in
      let r = h.ready in
      let turned = turn_state now f r.titled overlay m in
      let step = step_Refreshed now f r.titled overlay m in
      let overlay' = union_region overlay (structure_of r.titled (m.records f)) in
      let frame_order =
        new_rect_region-IsRegion (structure_rect r.titled (m.records f))
          (h.structure_area r.titled r.known) in
      let rest =
        Overlaid-loop overlay' front back turned m' (or_false_right (p == f) (is_in p front) before)
          apart (step.still_ready p here)
          (All-map_pred (IsShown m) (IsShown turned) (IsShown-Refreshed step) (front ++ p ∷ back)
            shown.1)
          (union_region-IsRegion lowest overlay (structure_of r.titled (m.records f)) o frame_order)
          (past_turn now f (front ++ p ∷ back) overlay m m' r e) in
      let not_f = or_false_left (p == f) (is_in p front) before in
      let same_p = step.same_record p not_f in
      let covers =
        ap₂ ◌||◌ (frame_joins m f overlay h o) (
          ap (λ (test : ℕ → Bool). any test front)
            (fun_ext (λ q. same_frame x y (step.same_window q))))
        ∙ or_assoc (in_region x y overlay) (in_frame x y (m.records f)) _ in
      record {
        overlay = rest.overlay;
        in_order = rest.in_order;
        covers = rest.covers ∙ covers;
        visible = rest.visible ∙ ap (λ w. updated_visible (content_of w) rest.overlay) same_p;
        update =
            rest.update
            ∙ ap₂
                (λ w (old : Region × Region).
                  updated_update (updated_visible (content_of w) rest.overlay) old.0 old.1)
                same_p
                (ap₂ (λ (a b : Region). (a, b))
                  (region_kept (f ∷ []) m turned (λ w. w.visible_region) p _ step not_f refl
                    here.visible_old)
                  (region_kept (f ∷ []) m turned (λ w. w.update_region) p _ step not_f refl
                    here.update_old));
      }

-- After InvalidateWindows that succeeds, a pixel is in the visible region of a window exactly
-- if it is in the content of the window and neither in the menu bar nor in the frame of a
-- window in front of it. The window stands once in the list; all windows in it have regions
-- behind handles in use, and contents and frames that are not empty, as is the menu bar.
pub visible_pixels :
    (now : ℕ) (x y : ℤ) (p : ℕ) (front back : List ℕ) (m m' : WindowManager)
    → m.window_list ≡ front ++ p ∷ back
    → is_in p front ≡ false
    → is_in p back ≡ false
    → IsShown m p
    → All (IsShown m) (front ++ p ∷ back)
    → HasArea (new_rect (pos 0) (pos 0) (rect_width m.screen_bounds) (pos 20))
    → invalidate_windows now m ≡ ok m'
    → in_region x y (m'.regions (m'.records p).visible_region)
      ≡ in_content x y (m.records p)
        && not (in_region x y (menu_bar_region m) || any (λ q. in_frame x y (m.records q)) front)
unfolding invalidate_windows menu_bar_region updated_visible content_of in_content
visible_pixels now x y p front back m m' list before apart here shown bar e =
    let o = new_rect_region-IsRegion _ bar in
    let at =
      Overlaid-loop now x y p (menu_bar_region m) front back m m' before apart here.ready shown o
        (ap (λ ws. invalidate_loop now ws (menu_bar_region m) m) (sym list) ∙ e) in
    ap (in_region x y) at.visible
    ∙ in_region-subtract_region x y lowest (content_of (m.records p)) at.overlay
        (new_rect_region-IsRegion _ here.content_area) at.in_order
    ∙ ap₂ (λ a b. a && not b) (in_region-rect_region x y (content_rect (m.records p))) at.covers

-- After InvalidateWindows that succeeds, with windows as for the visible regions and update and
-- visible regions of the window in order, a pixel is in the update region of the window exactly
-- if it shows and was in the update region before or did not show before.
pub update_pixels :
    (now : ℕ) (x y : ℤ) (p : ℕ) (front back : List ℕ) (m m' : WindowManager)
    → m.window_list ≡ front ++ p ∷ back
    → is_in p front ≡ false
    → is_in p back ≡ false
    → IsShown m p
    → All (IsShown m) (front ++ p ∷ back)
    → HasArea (new_rect (pos 0) (pos 0) (rect_width m.screen_bounds) (pos 20))
    → IsRegion lowest (m.regions (m.records p).visible_region)
    → IsRegion lowest (m.regions (m.records p).update_region)
    → invalidate_windows now m ≡ ok m'
    → let shows = in_region x y (m'.regions (m'.records p).visible_region) in
      in_region x y (m'.regions (m'.records p).update_region)
      ≡ (in_region x y (m.regions (m.records p).update_region)
          || shows && not (in_region x y (m.regions (m.records p).visible_region)))
        && shows
unfolding invalidate_windows menu_bar_region updated_visible updated_update content_of
update_pixels now x y p front back m m' list before apart here shown bar vis upd e =
    let at =
      Overlaid-loop now x y p (menu_bar_region m) front back m m' before apart here.ready shown
        (new_rect_region-IsRegion _ bar)
        (ap (λ ws. invalidate_loop now ws (menu_bar_region m) m) (sym list) ∙ e) in
    let content = content_of (m.records p) in
    let old = m.regions (m.records p).visible_region in
    let shown = subtract_region content at.overlay in
    let dirty = subtract_region shown old in
    let shown_order =
      subtract_region-IsRegion lowest content at.overlay
        (new_rect_region-IsRegion _ here.content_area) at.in_order in
    let dirty_order = subtract_region-IsRegion lowest shown old shown_order vis in
    let update = m.regions (m.records p).update_region in
    let same = ap (in_region x y) (sym at.visible) in
    ap (in_region x y) at.update
    ∙ in_region-intersect_region x y lowest (union_region update dirty) shown
        (union_region-IsRegion lowest update dirty upd dirty_order) shown_order
    ∙ ap (λ b. b && in_region x y shown)
        (in_region-union_region x y lowest update dirty upd dirty_order
          ∙ ap (◌||◌ (in_region x y update))
              (in_region-subtract_region x y lowest shown old shown_order vis))
    ∙ ap (λ b. (in_region x y update || b && not (in_region x y old)) && b) same
