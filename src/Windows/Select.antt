-- ===== src/Windows/Select.antt =====
-- SelectWindow: which window is active afterwards, and what is queued.
use cyder.Base.{
  ◌+◌, ltb, bind-ok, Status, ◌>>=◌, ℕ, ◌%◌, ◌≡◌, ◌≢◌, refl, sym, ap, ◌∙◌, Bool, true, false, List,
  [], ◌∷◌, ◌++◌, ◌==◌, any, ==_iff, subst, Bool-cases, inl, inr, if◌then◌else◌, arith, ok,
}
use cyder.Events.Defs.{queue_window_activate, window_activate, origin}
use cyder.Trap.Stack.{ok_inj}
use cyder.Windows.Defs.{
  store, hilited_offset, move_to_front, WindowRecord, WindowManager, has_title_bar,
}
use cyder.Windows.Ops.{
  hilite_loop, invalidate_loop, invalidate_windows, menu_bar_region, select_window,
}
use cyder.Windows.Front.{is_in, All-is_in, BroughtToFront, move_to_front-BroughtToFront}
use cyder.Windows.Past.{past_check}
use cyder.Memory.Manager.Defs.{system_memory_size}
use cyder.Windows.Refresh.{IsReady, invalidate_loop_lem}

-- The records after the loop over `hilited`.
unfoldable hilited_records : ℕ → List ℕ → (ℕ → WindowRecord) → ℕ → WindowRecord
hilited_records target [] records = records
hilited_records target (w ∷ ws) records =
    hilited_records target ws
      (store w (record (records w) { hilited = if target == w then 255 else 0 }) records)

hilite_loop-records :
    (target : ℕ) (ws : List ℕ) (records after : ℕ → WindowRecord)
    → hilite_loop target ws records ≡ ok after
    → after ≡ hilited_records target ws records
unfolding hilite_loop hilited_records
hilite_loop-records target [] records after e = sym (ok_inj e)
hilite_loop-records target (w ∷ ws) records after e =
    hilite_loop-records target ws _ after
      (past_check (ltb (w + hilited_offset) system_memory_size) _ after e)

-- What the loop over `hilited` leaves of a record.
abbrev with_byte : ℕ → WindowRecord → WindowRecord
with_byte b w = record w { hilited = b }

hilited_records-byte :
    (target : ℕ) (ws : List ℕ) (records : ℕ → WindowRecord) (q : ℕ)
    → hilited_records target ws records q
      ≡ (if is_in q ws then with_byte (if target == q then 255 else 0) (records q) else records q)
unfolding hilited_records any
hilited_records-byte target [] records q = refl
hilited_records-byte target (w ∷ ws) records q =
    hilited_records-byte target ws _ q ∙ (elim (Bool-cases (q == w)) [
      | inl hit ↦
          rw (hit, sym ((==_iff q w).0 hit))
            (elim (Bool-cases (is_in q ws)) [ inl again ↦ rw again refl | inr once ↦ rw once refl ])
      | inr miss ↦ rw miss refl
    ])

hilited_listed :
    (target : ℕ) (ws : List ℕ) (records : ℕ → WindowRecord) (q : ℕ)
    → is_in q ws ≡ true
    → hilited_records target ws records q ≡ with_byte (if target == q then 255 else 0) (records q)
hilited_listed target ws records q h = rw h at (hilited_records-byte target ws records q)

hilited_other :
    (target : ℕ) (ws : List ℕ) (records : ℕ → WindowRecord) (q : ℕ)
    → is_in q ws ≡ false
    → hilited_records target ws records q ≡ records q
hilited_other target ws records q h = rw h at (hilited_records-byte target ws records q)

-- The state in which SelectWindow invalidates the windows.
abbrev selected_state : ℕ → ℕ → List ℕ → WindowManager → WindowManager
unfolding hilited_records queue_window_activate
selected_state now target after m = record m {
  records = hilited_records target m.window_list m.records;
  window_list = after;
  event_manager = queue_window_activate now target true m.event_manager;
}

selected_state-IsReady :
    (now target : ℕ) (after : List ℕ) (m : WindowManager) (q : ℕ)
    → IsReady m q
    → IsReady (selected_state now target after m) q
unfolding has_title_bar selected_state
selected_state-IsReady now target after m q r = elim (Bool-cases (is_in q m.window_list)) [
  | inl listed ↦
      let e = hilited_listed target m.window_list m.records q listed in
      record {
        titled = r.titled;
        known = rw e r.known;
        visible_old = rw e r.visible_old;
        update_old = rw e r.update_old;
      }
  | inr other ↦
      let e = hilited_other target m.window_list m.records q other in
      record {
        titled = r.titled;
        known = rw e r.known;
        visible_old = rw e r.visible_old;
        update_old = rw e r.update_old;
      }
]

-- What SelectWindow does when it has an effect.
pub record Selected (now target : ℕ) (m m' : WindowManager) : Type 0 where
  pub order : BroughtToFront target m.window_list m'.window_list
  pub one_active :
      (q : ℕ)
      → is_in q m.window_list ≡ true
      → (m'.records q).hilited ≡ (if target == q then 1 else 0)
  pub activated :
      m'.event_manager.activate_events
      ≡ m.event_manager.activate_events
        ++ record {
          what = window_activate;
          message = target;
          when = now;
          where_ = origin;
          modifiers = 1;
        }
          ∷ []
  pub still_ready : (q : ℕ) → IsReady m q → IsReady m' q

byte_of : (b : Bool) (n : ℕ) → n ≡ (if b then 255 else 0) % 2 → n ≡ (if b then 1 else 0)
byte_of true n h = h
byte_of false n h = h

-- When SelectWindow of a window in the list whose `hilited` is not 255, with every listed
-- window ready for InvalidateWindows, succeeds, the window is first and the others keep their
-- order, exactly its `hilited` is set among the listed windows, one activate event is queued
-- for it behind the others, and every window is ready for InvalidateWindows again.
pub select_window-Selected :
    (now target : ℕ) (m m' : WindowManager)
    → (m.records target).hilited ≢ 255
    → is_in target m.window_list ≡ true
    → ((q : ℕ) → is_in q m.window_list ≡ true → IsReady m q)
    → select_window now target m ≡ ok m'
    → Selected now target m m'
unfolding select_window invalidate_windows selected_state queue_window_activate
select_window-Selected now target m m' inactive listed ready e =
    let moved = move_to_front-BroughtToFront target m.window_list listed in
    let s = selected_state now target moved.0 m in
    let acts = past_check (ltb (target + hilited_offset) system_memory_size) _ m' e in
    let e1 =
      bind-ok (hilite_loop target m.window_list m.records) after_hilite m'
        (rw (not_255 (m.records target).hilited inactive) at acts) in
    let same = hilite_loop-records target m.window_list m.records (e1.0) (e1.1) in
    let e2 : after_hilite (hilited_records target m.window_list m.records) ≡ ok m' =
      subst (λ (after : ℕ → WindowRecord). after_hilite after ≡ ok m') {x = e1.0}
        {y = hilited_records target m.window_list m.records} same (e1.2) in
    let loop : invalidate_loop now moved.0 (menu_bar_region m) s ≡ ok m' = rw (moved.1) at e2 in
    let result =
      invalidate_loop_lem now moved.0 (menu_bar_region m) s m'
        (All-is_in (IsReady s) moved.0 (λ q h.
          selected_state-IsReady now target moved.0 m q
            (ready q (sym (moved.2.same_members q) ∙ h))))
        loop in
    record {
      order =
          subst (BroughtToFront target m.window_list) {x = moved.0} {y = m'.window_list}
            (sym result.same_list) moved.2;
      one_active = λ q h. byte_of (target == q) _ (
          result.byte q (moved.2.same_members q ∙ h)
          ∙ ap (λ w. w.hilited % 2) (hilited_listed target m.window_list m.records q h));
      activated = result.same_activates;
      still_ready = λ q r. result.still_ready q (selected_state-IsReady now target moved.0 m q r);
    }
  where
    not_255 : (n : ℕ) → n ≢ 255 → (n == 255) ≡ false
    not_255 n h = ground arith

    after_hilite : (ℕ → WindowRecord) → Status WindowManager
    after_hilite hilited = do
      list ← move_to_front target m.window_list
      invalidate_windows now record m {
        records = hilited;
        window_list = list;
        event_manager = queue_window_activate now target true m.event_manager;
      }
