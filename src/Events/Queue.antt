-- ===== src/Events/Queue.antt =====
-- What GetNextEvent takes, and what it leaves.
use mathlib.Core.List.{Perm, perm_middle}
use mathlib.Core.List.Perm
use cyder.Base.{
  ℕ, zero, suc, ◌≡◌, ◌≢◌, refl, subst, ◌⊎◌, inl, inr, Bool, true, false, List, [], ◌∷◌, ◌++◌, none,
  some, arith, length, if◌then◌else◌, find_if, erase_if, All, All-append, All-erase_if, Bool-cases,
}
use cyder.Events.Defs.{
  EventRecord, EventManager, mouse_down, mouse_up, key_down, mouse_move, window_update,
  window_activate, has_bit, wants_input, is_event_enabled, take_event, take_activate, take_input,
  take_update, Arrival, activates, updates, presses, releases, moves, types, posts, enables,
  shuts_down, arrive,
}

-- All events that wait, in the order of priority.
abbrev pub pending : EventManager → List EventRecord
pending e = e.activate_events ++ (e.input_events ++ e.update_events)

erase_if-perm {ℓ} :
    {A : Type ℓ} (p : A → Bool) (xs : List A) (x : A)
    → find_if p xs ≡ some x
    → Perm xs (x ∷ erase_if p xs)
unfolding find_if erase_if
erase_if-perm p [] x f = cc
erase_if-perm p (y ∷ xs) x f = elim (Bool-cases (p y)) [
  | inl hit ↦
      subst (λ z. Perm (y ∷ xs) (z ∷ erase_if p (y ∷ xs))) {x = y} {y = x} (ground arith)
        (rw hit (Perm.refl (y ∷ xs)))
  | inr miss ↦
      rw miss (Perm.trans (Perm.cons y (erase_if-perm p xs x (rw miss at f))) (Perm.swap x y _))
]

-- Where an event that is taken came from, and what is left.
abbrev FromActivate : ℕ → EventManager → EventManager → EventRecord → Type 0
FromActivate event_mask e e' r =
    (e.activate_events ≡ r ∷ e'.activate_events)
    × (e'.input_events ≡ e.input_events)
    × (e'.update_events ≡ e.update_events)
    × (has_bit event_mask 8 ≡ true)

abbrev FromInput : ℕ → EventManager → EventManager → EventRecord → Type 0
FromInput event_mask e e' r =
    (find_if (is_event_enabled event_mask) e.input_events ≡ some r)
    × (e'.input_events ≡ erase_if (is_event_enabled event_mask) e.input_events)
    × (e'.activate_events ≡ e.activate_events)
    × (e'.update_events ≡ e.update_events)

abbrev FromUpdate : ℕ → EventManager → EventManager → EventRecord → Type 0
FromUpdate event_mask e e' r =
    (e.update_events ≡ r ∷ e'.update_events)
    × (e'.input_events ≡ e.input_events)
    × (e'.activate_events ≡ e.activate_events)
    × (has_bit event_mask 6 ≡ true)

take_update_cases :
    (event_mask : ℕ) (us : List EventRecord) (e e' : EventManager) (r : EventRecord)
    → e.update_events ≡ us
    → take_update event_mask us e ≡ some (r, e')
    → FromUpdate event_mask e e' r
unfolding take_update
take_update_cases event_mask [] e e' r u t = ground arith
take_update_cases event_mask (x ∷ us) e e' r u t = ground arith

take_input_cases :
    (event_mask : ℕ) (e e' : EventManager) (r : EventRecord)
    → take_input event_mask e ≡ some (r, e')
    → FromInput event_mask e e' r ⊎ FromUpdate event_mask e e' r
unfolding take_input
take_input_cases event_mask e e' r t =
    ground (arith, take_update_cases event_mask e.update_events e e' r refl)

take_activate_cases :
    (event_mask : ℕ) (as' : List EventRecord) (e e' : EventManager) (r : EventRecord)
    → e.activate_events ≡ as'
    → take_activate event_mask as' e ≡ some (r, e')
    → FromActivate event_mask e e' r ⊎ FromInput event_mask e e' r ⊎ FromUpdate event_mask e e' r
unfolding take_activate
take_activate_cases event_mask [] e e' r u t = inr (take_input_cases event_mask e e' r t)
take_activate_cases event_mask (x ∷ as') e e' r u t =
    ground (arith, take_input_cases event_mask e e' r)

take_event_cases :
    (event_mask : ℕ) (e e' : EventManager) (r : EventRecord)
    → take_event event_mask e ≡ some (r, e')
    → FromActivate event_mask e e' r ⊎ FromInput event_mask e e' r ⊎ FromUpdate event_mask e e' r
unfolding take_event
take_event_cases event_mask e e' r t =
    take_activate_cases event_mask e.activate_events e e' r refl t

-- When GetNextEvent takes an event, the events that waited are that event, once, and all those
-- that wait on: none is lost, made up or taken twice.
pub take_event-perm :
    (event_mask : ℕ) (e e' : EventManager) (r : EventRecord)
    → take_event event_mask e ≡ some (r, e')
    → Perm (pending e) (r ∷ pending e')
take_event-perm event_mask e e' r t = elim (take_event_cases event_mask e e' r t) [
  | inl (a, i, u, _) ↦ rw (a, i, u) (Perm.refl _)
  | inr (inl (f, i, a, u)) ↦
      rw (i, a, u)
        (Perm.trans
          (Perm.append_left e.activate_events (
            Perm.append_right e.update_events
              (erase_if-perm (is_event_enabled event_mask) e.input_events r f)))
          (perm_middle e.activate_events _))
  | inr (inr (u, i, a, _)) ↦
      rw (u, i, a)
        (Perm.trans
          (Perm.append_left e.activate_events (perm_middle e.input_events e'.update_events))
          (perm_middle e.activate_events _))
]

-- Each queue holds the kinds of event that its own calls put there; PostEvent is left out.
abbrev pub IsInput : EventRecord → Type 0
IsInput r =
    (r.what ≡ mouse_down) ⊎ (r.what ≡ mouse_up) ⊎ (r.what ≡ key_down) ⊎ (r.what ≡ mouse_move)

pub record IsTyped (e : EventManager) : Type 0 where
  pub activate : All (λ (r : EventRecord). r.what ≡ window_activate) e.activate_events
  pub input : All IsInput e.input_events
  pub update : All (λ (r : EventRecord). r.what ≡ window_update) e.update_events

add_input-IsTyped :
    (e : EventManager) (r : EventRecord)
    → IsTyped e
    → IsInput r
    → IsTyped (record e { input_events = e.input_events ++ r ∷ [] })
add_input-IsTyped e r t h = record {
  activate = t.activate;
  input = All-append IsInput e.input_events (r ∷ []) t.input (h, tt);
  update = t.update;
}

if-IsTyped : (b : Bool) {e f : EventManager} → IsTyped e → IsTyped f → IsTyped (if b then e else f)
if-IsTyped true t u = t
if-IsTyped false t u = u

-- Every call but PostEvent keeps the queues typed.
pub arrive-IsTyped :
    (a : Arrival) (e : EventManager)
    → ((now type message : ℕ) → a ≢ posts now type message)
    → IsTyped e
    → IsTyped (arrive a e)
unfolding arrive
arrive-IsTyped (activates now window on) e np t = record {
  activate = All-append _ e.activate_events _ t.activate (refl, tt);
  input = t.input;
  update = t.update;
}
arrive-IsTyped (updates now window) e np t = record {
  activate = t.activate;
  input = t.input;
  update = All-append _ e.update_events _ t.update (refl, tt);
}
arrive-IsTyped (presses now at) e np t = add_input-IsTyped e _ t (inl refl)
arrive-IsTyped (releases now at) e np t = add_input-IsTyped e _ t (inr (inl refl))
arrive-IsTyped (moves now at) e np t =
    if-IsTyped e.mouse_move_enabled (add_input-IsTyped e _ t (inr (inr (inr refl)))) t
arrive-IsTyped (types now) e np t = add_input-IsTyped e _ t (inr (inr (inl refl)))
arrive-IsTyped (posts now type message) e np t = absurd (np now type message refl)
arrive-IsTyped (enables on) e np t = record {
  activate = t.activate;
  input = t.input;
  update = t.update;
}
arrive-IsTyped shuts_down e np t = record {
  activate = t.activate;
  input = t.input;
  update = t.update;
}

find_if_holds {ℓ} :
    {A : Type ℓ} (p : A → Bool) (xs : List A) (x : A) → find_if p xs ≡ some x → p x ≡ true
unfolding find_if
find_if_holds p [] x f = cc
find_if_holds p (y ∷ xs) x f = elim (Bool-cases (p y)) [
  | inl hit ↦ subst (λ z. p z ≡ true) {x = y} {y = x} (ground arith) hit
  | inr miss ↦ find_if_holds p xs x (rw miss at f)
]

-- For queues that hold only the kinds of event that their own calls put there, an event that
-- GetNextEvent takes is one that the mask enables, and the queues are of that form still.
take_event-IsTyped :
    (event_mask : ℕ) (e e' : EventManager) (r : EventRecord)
    → IsTyped e
    → take_event event_mask e ≡ some (r, e')
    → (is_event_enabled event_mask r ≡ true) × IsTyped e'
unfolding is_event_enabled
take_event-IsTyped event_mask e e' r t h = elim (take_event_cases event_mask e e' r h) [
  | inl (a, i, u, bit) ↦
      let typed = rw a at t.activate in
      (rw typed.0 bit, record { activate = typed.1; input = rw i t.input; update = rw u t.update })
  | inr (inl (f, i, a, u)) ↦ (
    find_if_holds (is_event_enabled event_mask) e.input_events r f,
    record {
      activate = rw a t.activate;
      input = rw i (All-erase_if IsInput (is_event_enabled event_mask) e.input_events t.input);
      update = rw u t.update;
    },
  )
  | inr (inr (u, i, a, bit)) ↦
      let typed = rw u at t.update in
      (
        rw typed.0 bit,
        record { activate = rw a t.activate; input = rw i t.input; update = typed.1 },
      )
]

-- The events that repeated calls give, up to n of them.
unfoldable pub drain : ℕ → ℕ → EventManager → List EventRecord
drain zero event_mask e = []
drain (suc n) event_mask e = elim (take_event event_mask e) [
  | none ↦ []
  | some (r, e') ↦ r ∷ drain n event_mask e'
]

module _ (event_mask : ℕ) (moves_on shutting : Bool) (wants_activate : has_bit event_mask 8 ≡ true)
    (wants_update : has_bit event_mask 6 ≡ true) (wants_keys : wants_input event_mask ≡ true) where
  queues : List EventRecord → List EventRecord → List EventRecord → EventManager
  queues as' is us = record {
    activate_events = as';
    input_events = is;
    update_events = us;
    mouse_move_enabled = moves_on;
    is_shutting_down = shutting;
  }

  drain_updates : (us : List EventRecord) → drain (length us) event_mask (queues [] [] us) ≡ us
  unfolding drain take_event queues
  drain_updates [] = refl
  drain_updates (x ∷ us) = ground (arith, drain_updates us)

  drain_inputs :
      (is us : List EventRecord)
      → All (λ r. is_event_enabled event_mask r ≡ true) is
      → drain (length (is ++ us)) event_mask (queues [] is us) ≡ is ++ us
  unfolding drain take_event queues find_if erase_if
  drain_inputs [] us h = drain_updates us
  drain_inputs (x ∷ is) us h = ground (arith, h.0, drain_inputs is us h.1)

  drain_lists :
      (as' is us : List EventRecord)
      → All (λ r. is_event_enabled event_mask r ≡ true) is
      → drain (length (as' ++ (is ++ us))) event_mask (queues as' is us) ≡ as' ++ (is ++ us)
  unfolding drain take_event queues
  drain_lists [] is us h = drain_inputs is us h
  drain_lists (x ∷ as') is us h = ground (arith, drain_lists as' is us h)

-- With a mask that wants activate events, updates and some kind of input, and that enables all
-- input events that wait, repeated calls of GetNextEvent give the activate events first, then
-- the input events, then the updates, each kind in the order of arrival.
pub drain-pending :
    (event_mask : ℕ) (e : EventManager)
    → has_bit event_mask 8 ≡ true
    → has_bit event_mask 6 ≡ true
    → wants_input event_mask ≡ true
    → All (λ r. is_event_enabled event_mask r ≡ true) e.input_events
    → drain (length (pending e)) event_mask e ≡ pending e
unfolding queues
drain-pending event_mask e a u k h =
    drain_lists event_mask e.mouse_move_enabled e.is_shutting_down a u k e.activate_events
      e.input_events e.update_events h
