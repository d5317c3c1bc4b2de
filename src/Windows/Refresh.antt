-- ===== src/Windows/Refresh.antt =====
-- One turn of InvalidateWindows: what it gives and what it leaves.
use cyder.Base.{
  bind-ok, ℕ, suc, ◌%◌, ◌≤◌, ◌<◌, ◌≡◌, refl, sym, ap, ◌∙◌, subst, Bool, true, false, List, [], ◌∷◌,
  ◌==◌, All, All-map_pred, ==_iff, any, ◌||◌, Bool-cases, inl, inr, arith, ok,
}
use cyder.Graphics.Region.{Region, union_region}
use cyder.Windows.Defs.{invalidate_window, WindowRecord, WindowManager, store, has_title_bar}
use cyder.Windows.Ops.{invalidate_loop}
use cyder.Windows.Front.{is_in}
use cyder.Trap.Stack.{ok_inj}
use cyder.Windows.Turn.{structure_of, turn_state, invalidate_window_lem}

-- A window of a known variation, whose handles are allocated.
pub record IsReady (m : WindowManager) (ptr : ℕ) : Type 0 where
  pub titled : Bool
  pub known : has_title_bar (m.records ptr) ≡ ok titled
  pub visible_old : (m.records ptr).visible_region < m.next_handle
  pub update_old : (m.records ptr).update_region < m.next_handle

-- What a refresh leaves of a window: its place, its variation, and whether it is active.
pub record SameWindow (w w' : WindowRecord) : Type 0 where
  pub bounds : w'.bounds ≡ w.bounds
  pub port_rect : w'.port_rect ≡ w.port_rect
  pub variation : w'.window_definition_proc ≡ w.window_definition_proc
  pub active : w'.hilited % 2 ≡ w.hilited % 2

-- What refreshing windows leaves of the state.
pub record Refreshed (ws : List ℕ) (m m' : WindowManager) : Type 0 where
  pub same_list : m'.window_list ≡ m.window_list
  pub same_activates : m'.event_manager.activate_events ≡ m.event_manager.activate_events
  pub same_window : (q : ℕ) → SameWindow (m.records q) (m'.records q)
  pub same_record : (q : ℕ) → is_in q ws ≡ false → m'.records q ≡ m.records q
  pub same_regions : (k : ℕ) → k < m.next_handle → m'.regions k ≡ m.regions k
  pub handles_grow : m.next_handle ≤ m'.next_handle
  pub still_ready : (q : ℕ) → IsReady m q → IsReady m' q
  pub byte : (q : ℕ) → is_in q ws ≡ true → (m'.records q).hilited ≡ (m.records q).hilited % 2

-- A property of every entry after a store.
store_all :
    {A : Type 0} (P : ℕ → A → Type 0) (p : ℕ) (a : A) (f : ℕ → A)
    → P p a
    → ((q : ℕ) → (q == p) ≡ false → P q (f q))
    → (q : ℕ) → P q (store p a f q)
store_all P p a f at_p elsewhere q = elim (Bool-cases (q == p)) [
  | inl hit ↦ rw hit (subst (λ z. P z a) {x = p} {y = q} (sym ((==_iff q p).0 hit)) at_p)
  | inr miss ↦ rw miss (elsewhere q miss)
]

SameWindow-refl : (w : WindowRecord) → SameWindow w w
SameWindow-refl w = record { bounds = refl; port_rect = refl; variation = refl; active = refl }

SameWindow-trans : {a b c : WindowRecord} → SameWindow a b → SameWindow b c → SameWindow a c
SameWindow-trans s t = record {
  bounds = t.bounds ∙ s.bounds;
  port_rect = t.port_rect ∙ s.port_rect;
  variation = t.variation ∙ s.variation;
  active = t.active ∙ s.active;
}

halved_twice : (n : ℕ) → n % 2 % 2 ≡ n % 2
halved_twice n = omega arith

fresh_four :
    {A : Type 0} (h k : ℕ) (a b c d : A) (f : ℕ → A)
    → k < h
    → store (suc (suc (suc h))) a (store (suc (suc h)) b (store (suc h) c (store h d f))) k ≡ f k
fresh_four h k a b c d f l = ground arith

not_in_one : (q p : ℕ) → q == p || false ≡ false → (q == p) ≡ false
not_in_one q p h = ground arith

in_one : (q p : ℕ) → q == p || false ≡ true → (q == p) ≡ true
in_one q p h = ground arith

module _ (now ptr : ℕ) (titled : Bool) (overlay : Region) (m : WindowManager) where
  turn_still-IsReady : (q : ℕ) → IsReady m q → IsReady (turn_state now ptr titled overlay m) q
  unfolding has_title_bar turn_state
  turn_still-IsReady q r = elim (Bool-cases (q == ptr)) [
    | inl hit ↦
        let same = (==_iff q ptr).0 hit in
        record {
          titled = r.titled;
          known = rw hit (ap (λ z. has_title_bar (m.records z)) (sym same) ∙ r.known);
          visible_old = rw hit (omega arith);
          update_old = rw hit (omega arith);
        }
    | inr miss ↦ record {
      titled = r.titled;
      known = rw miss r.known;
      visible_old = rw miss (omega (arith, r.visible_old));
      update_old = rw miss (omega (arith, r.update_old));
    }
  ]

  pub step_Refreshed : Refreshed (ptr ∷ []) m (turn_state now ptr titled overlay m)
  unfolding any turn_state
  step_Refreshed = record {
    same_list = refl;
    same_activates = refl;
    same_window =
        store_all (λ q w'. SameWindow (m.records q) w') ptr _ m.records
          record {
            bounds = refl;
            port_rect = refl;
            variation = refl;
            active = halved_twice (m.records ptr).hilited;
          }
          (λ q _. SameWindow-refl (m.records q));
    same_record = λ q h. rw (not_in_one q ptr h) refl;
    same_regions = λ k h. fresh_four m.next_handle k _ _ _ _ m.regions h;
    handles_grow = omega arith;
    still_ready = turn_still-IsReady;
    byte = λ q h.
        let hit = in_one q ptr h in
        rw hit (ap (λ z. (m.records z).hilited % 2) (sym ((==_iff q ptr).0 hit)));
  }

Refreshed-refl : (m : WindowManager) → Refreshed [] m m
unfolding any
Refreshed-refl m = record {
  same_list = refl;
  same_activates = refl;
  same_window = λ q. SameWindow-refl (m.records q);
  same_record = λ q h. refl;
  same_regions = λ k h. refl;
  handles_grow = omega arith;
  still_ready = λ q r. r;
  byte = λ q h. ground (arith, h);
}

byte_step :
    (q p : ℕ) (ws : List ℕ) (b b' b'' : ℕ)
    → is_in q (p ∷ ws) ≡ true
    → (is_in q (p ∷ []) ≡ true → b' ≡ b % 2)
    → (is_in q (p ∷ []) ≡ false → b' ≡ b)
    → (is_in q ws ≡ true → b'' ≡ b' % 2)
    → (is_in q ws ≡ false → b'' ≡ b')
    → b'' ≡ b % 2
unfolding any
byte_step q p ws b b' b'' h f g f' g' = elim (Bool-cases (q == p)) [
  | inl hit ↦
      let one = f (rw hit refl) in
      elim (Bool-cases (is_in q ws)) [
        | inl again ↦ omega (arith, one, f' again)
        | inr not_again ↦ g' not_again ∙ one
      ]
  | inr miss ↦
      let one = g (rw miss refl) in let again = f' (rw miss at h) in omega (arith, one, again)
]

Refreshed-cons :
    {p : ℕ} {ws : List ℕ} {m m1 m2 : WindowManager}
    → Refreshed (p ∷ []) m m1
    → Refreshed ws m1 m2
    → Refreshed (p ∷ ws) m m2
unfolding any
Refreshed-cons {p = p} {ws = ws} {m = m} {m1 = m1} {m2 = m2} s t = record {
  same_list = t.same_list ∙ s.same_list;
  same_activates = t.same_activates ∙ s.same_activates;
  same_window = λ q. SameWindow-trans (s.same_window q) (t.same_window q);
  same_record = λ q h.
      t.same_record q (or_right (q == p) (is_in q ws) h)
      ∙ s.same_record q (or_left (q == p) (is_in q ws) h);
  same_regions = λ k h. t.same_regions k (omega (arith, h, s.handles_grow)) ∙ s.same_regions k h;
  handles_grow = omega (arith, s.handles_grow, t.handles_grow);
  still_ready = λ q r. t.still_ready q (s.still_ready q r);
  byte = λ q h.
      byte_step q p ws (m.records q).hilited (m1.records q).hilited (m2.records q).hilited h
        (s.byte q) (λ o. ap (λ w. w.hilited) (s.same_record q o)) (t.byte q)
        (λ o. ap (λ w. w.hilited) (t.same_record q o));
}
  where
    or_left : (a b : Bool) → a || b ≡ false → a || false ≡ false
    or_left a b h = ground arith

    or_right : (a b : Bool) → a || b ≡ false → b ≡ false
    or_right a b h = ground arith

-- The loop after the turn of a ready window.
pub past_turn :
    (now p : ℕ) (ws : List ℕ) (overlay : Region) (m m' : WindowManager) (r : IsReady m p)
    → invalidate_loop now (p ∷ ws) overlay m ≡ ok m'
    → invalidate_loop now ws
        (union_region overlay (structure_of r.titled (m.records p)))
        (turn_state now p r.titled overlay m)
      ≡ ok m'
unfolding invalidate_loop
past_turn now p ws overlay m m' r e =
    let past =
      bind-ok (invalidate_window now p overlay m)
        (λ (turn : Region × WindowManager). invalidate_loop now ws turn.0 turn.1) m' e in
    subst (λ (turn : Region × WindowManager). invalidate_loop now ws turn.0 turn.1 ≡ ok m')
      {x = past.0}
      {y = (
        union_region overlay (structure_of r.titled (m.records p)),
        turn_state now p r.titled overlay m,
      )}
      (invalidate_window_lem now p r.titled overlay m (past.0) r.known r.visible_old r.update_old
        (past.1))
      (past.2)

-- What the loop does to ready windows when it ends well.
pub invalidate_loop_lem :
    (now : ℕ) (ws : List ℕ) (overlay : Region) (m m' : WindowManager)
    → All (IsReady m) ws
    → invalidate_loop now ws overlay m ≡ ok m'
    → Refreshed ws m m'
unfolding invalidate_loop
invalidate_loop_lem now [] overlay m m' r e =
    subst (Refreshed [] m) {x = m} {y = m'} (ok_inj e) (Refreshed-refl m)
invalidate_loop_lem now (p ∷ ws) overlay m m' r e =
    let turned = turn_state now p r.0.titled overlay m in
    let step = step_Refreshed now p r.0.titled overlay m in
    Refreshed-cons step (
      invalidate_loop_lem now ws (union_region overlay (structure_of r.0.titled (m.records p)))
        turned m' (All-map_pred (IsReady m) (IsReady turned) step.still_ready ws r.1)
        (past_turn now p ws overlay m m' r.0 e))
