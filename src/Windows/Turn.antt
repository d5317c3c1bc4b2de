-- ===== src/Windows/Turn.antt =====
-- One turn of InvalidateWindows: the state that it gives.
use cyder.Base.{ℕ, suc, ◌%◌, ◌<◌, ◌≡◌, refl, sym, ap, ◌∙◌, Bool, arith, Status, ok, ◌>>=◌, bind-ok}
use cyder.Trap.Stack.{ok_inj}
use cyder.Events.Defs.{queue_window_update}
use cyder.Graphics.Region.{Region, new_rect_region, union_region, intersect_region, subtract_region}
use cyder.Windows.Defs.{
  read_region, WindowRecord, WindowManager, bool_byte, store, write_record, has_title_bar,
  content_rect, structure_rect, allocate_handle_to_region, update_content_and_structure_regions,
  updated_visible, updated_update, finish_window, invalidate_window,
}
use cyder.Windows.Past.{grown, past_allocation, past_region, past_read, past_write}

unfoldable pub content_of : WindowRecord → Region
unfolding new_rect_region
content_of w = new_rect_region (content_rect w)

unfoldable pub structure_of : Bool → WindowRecord → Region
unfolding new_rect_region
structure_of titled w = new_rect_region (structure_rect titled w)

-- The state after a turn, with the four handles that it allocates.
unfoldable pub turn_state : ℕ → ℕ → Bool → Region → WindowManager → WindowManager
unfolding queue_window_update updated_visible updated_update
turn_state now ptr titled overlay m =
    let w = m.records ptr in
    let h = m.next_handle in
    let visible = updated_visible (content_of w) overlay in
    let update = updated_update visible (m.regions w.visible_region) (m.regions w.update_region) in
    record m {
      records =
          store ptr
            (record w {
              hilited = w.hilited % 2;
              content_region = h;
              structure_region = suc h;
              visible_region = suc (suc h);
              update_region = suc (suc (suc h));
            })
            m.records;
      regions = store (suc (suc (suc h))) update (
          store (suc (suc h)) visible
            (store (suc h) (structure_of titled w) (store h (content_of w) m.regions)));
      next_handle = suc (suc (suc (suc h)));
      heap_offset =
          (grown update
            (grown visible (grown (structure_of titled w) (grown (content_of w) m)))).heap_offset;
      event_manager = queue_window_update now ptr m.event_manager;
    }

old_handle :
    (h k : ℕ) {A : Type 0} (a b : A) (f : ℕ → A) → k < h → store (suc h) a (store h b f) k ≡ f k
old_handle h k a b f l = ground arith

new_handle : (h : ℕ) {A : Type 0} (a b : A) (f : ℕ → A) → store (suc h) a (store h b f) h ≡ b
new_handle h a b f = ground arith

last_handle : (h : ℕ) {A : Type 0} (a : A) (f : ℕ → A) → store h a f h ≡ a
last_handle h a f = ground arith

-- The content and the structure of a window of a known variation.
past_update :
    {B : Type 0} (w : WindowRecord) (titled : Bool) (m : WindowManager)
    (next : WindowRecord × WindowManager → Status B) (b : B)
    → has_title_bar w ≡ ok titled
    → (update_content_and_structure_regions w m >>= next) ≡ ok b
    → next (
      record w { content_region = m.next_handle; structure_region = suc m.next_handle },
      grown (structure_of titled w) (grown (content_of w) m),
    )
      ≡ ok b
unfolding update_content_and_structure_regions has_title_bar allocate_handle_to_region content_of
    structure_of
past_update w titled m next b t h =
    let made = bind-ok (update_content_and_structure_regions w m) next b h in
    let known = rw t at (made.1) in
    let content =
      past_allocation (content_of w) m
        (λ (content : ℕ × WindowManager).
          allocate_handle_to_region (structure_of titled w) content.1 >>= λ structure.
          ok (record w { content_region = content.0; structure_region = structure.0 }, structure.1))
        (made.0) known in
    let structure =
      past_allocation (structure_of titled w) (grown (content_of w) m)
        (λ (structure : ℕ × WindowManager). ok (
          record w { content_region = m.next_handle; structure_region = structure.0 },
          structure.1,
        ))
        (made.0) content in
    ap next (ok_inj structure) ∙ made.2

past_finish :
    (now ptr : ℕ) (overlay current_visible content current_update structure : Region)
    (w : WindowRecord) (m : WindowManager) (result : Region × WindowManager)
    → finish_window now ptr overlay current_visible content current_update structure w m ≡ ok result
    → let visible = updated_visible content overlay in
      let update = updated_update visible current_visible current_update in
      let grown_twice = grown update (grown visible m) in
      result ≡ (
        union_region overlay structure,
        record grown_twice {
          records =
              store ptr
                (record w { visible_region = m.next_handle; update_region = suc m.next_handle })
                m.records;
          event_manager = queue_window_update now ptr m.event_manager;
        },
      )
unfolding finish_window queue_window_update
past_finish now ptr overlay current_visible content current_update structure w m result e =
    let visible = updated_visible content overlay in
    let update = updated_update visible current_visible current_update in
    let e1 =
      past_allocation visible m
        (λ (v : ℕ × WindowManager). allocate_handle_to_region update v.1 >>= λ u.
          last (record w { visible_region = v.0; update_region = u.0 }) u.1)
        result e in
    let e2 =
      past_allocation update (grown visible m)
        (λ (u : ℕ × WindowManager).
          last (record w { visible_region = m.next_handle; update_region = u.0 }) u.1)
        result e1 in
    sym (
      ok_inj (
        past_write ptr
          (record w { visible_region = m.next_handle; update_region = suc m.next_handle })
          (grown update (grown visible m))
          (λ (refreshed : WindowManager). ok (
            union_region overlay structure,
            record refreshed {
              event_manager = queue_window_update now ptr refreshed.event_manager;
            },
          ))
          result e2))
  where
    last : WindowRecord → WindowManager → Status (Region × WindowManager)
    last changed after = do
      refreshed ← write_record ptr changed after
      ok (
        union_region overlay structure,
        record refreshed { event_manager = queue_window_update now ptr refreshed.event_manager },
      )

-- A turn for a window of a known variation whose handles are not fresh, when it ends well.
pub invalidate_window_lem :
    (now ptr : ℕ) (titled : Bool) (overlay : Region) (m : WindowManager)
    (result : Region × WindowManager)
    → has_title_bar (m.records ptr) ≡ ok titled
    → (m.records ptr).visible_region < m.next_handle
    → (m.records ptr).update_region < m.next_handle
    → invalidate_window now ptr overlay m ≡ ok result
    → result ≡ (
      union_region overlay (structure_of titled (m.records ptr)),
      turn_state now ptr titled overlay m,
    )
unfolding invalidate_window structure_of content_of structure_rect content_rect turn_state bool_byte
    has_title_bar updated_visible updated_update new_rect_region union_region intersect_region
    subtract_region
invalidate_window_lem now ptr titled overlay m result t v u e =
    let window = bool_byte (m.records ptr) in
    let updated = record window {
      content_region = m.next_handle;
      structure_region = suc m.next_handle;
    } in
    let m1 = grown (structure_of titled (m.records ptr)) (grown (content_of (m.records ptr)) m) in
    let rest = finish_window now ptr overlay in
    let e1 =
      past_read ptr m
        (λ (w : WindowRecord).
          update_content_and_structure_regions w m >>= λ changed. after_update changed)
        result e in
    let e2 = past_update window titled m after_update result t e1 in
    let e3 =
      past_region (m.records ptr).visible_region m1
        (λ (a : Region). read_region m.next_handle m1 >>= λ b.
          read_region (m.records ptr).update_region m1 >>= λ c.
          read_region (suc m.next_handle) m1 >>= λ d. rest a b c d updated m1)
        result e2 in
    let a = m1.regions (m.records ptr).visible_region in
    let b = m1.regions m.next_handle in
    let c = m1.regions (m.records ptr).update_region in
    let e4 =
      past_region m.next_handle m1
        (λ (b : Region). read_region (m.records ptr).update_region m1 >>= λ c.
          read_region (suc m.next_handle) m1 >>= λ d. rest a b c d updated m1)
        result e3 in
    let e5 =
      past_region (m.records ptr).update_region m1
        (λ (c : Region). read_region (suc m.next_handle) m1 >>= λ d. rest a b c d updated m1) result
        e4 in
    let e6 =
      past_region (suc m.next_handle) m1 (λ (d : Region). rest a b c d updated m1) result e5 in
    let done =
      past_finish now ptr overlay a b c (m1.regions (suc m.next_handle)) updated m1 result e6 in
    done
    ∙ rw
        (
          old_handle m.next_handle (m.records ptr).visible_region
              (structure_of titled (m.records ptr)) (content_of (m.records ptr)) m.regions v,
          old_handle m.next_handle (m.records ptr).update_region
              (structure_of titled (m.records ptr)) (content_of (m.records ptr)) m.regions u,
          new_handle m.next_handle (structure_of titled (m.records ptr))
              (content_of (m.records ptr)) m.regions,
          last_handle (suc m.next_handle) (structure_of titled (m.records ptr))
              (store m.next_handle (content_of (m.records ptr)) m.regions),
        )
        refl
  where
    after_update : WindowRecord × WindowManager → Status (Region × WindowManager)
    after_update changed = do
      current_visible ← read_region (changed.0).visible_region (changed.1)
      content ← read_region (changed.0).content_region (changed.1)
      current_update ← read_region (changed.0).update_region (changed.1)
      structure ← read_region (changed.0).structure_region (changed.1)
      finish_window now ptr overlay current_visible content current_update structure (changed.0)
          (changed.1)
