-- ===== src/Events/Defs.antt =====
-- emu/event_manager.{h,cc}: the three queues and the operations on them.
use cyder.Base.{
  ℕ, ◌/◌, ◌%◌, ◌^◌, Bool, true, not, ◌&&◌, ◌||◌, List, [], ◌∷◌, ◌++◌, Option, none, some, ◌==◌,
  if◌then◌else◌, is_empty, find_if, erase_if, any, ℤ, pos,
}

pub record Point : Type 0 where
  pub y : ℤ
  pub x : ℤ

pub record EventRecord : Type 0 where
  pub what : ℕ
  pub message : ℕ
  pub when : ℕ
  pub where_ : Point
  pub modifiers : ℕ

abbrev pub origin : Point
origin = record { y = pos 0; x = pos 0 }

-- EventType, and the custom kMouseMove.
abbrev pub null_event : ℕ
null_event = 0

abbrev pub mouse_down : ℕ
mouse_down = 1

abbrev pub mouse_up : ℕ
mouse_up = 2

abbrev pub key_down : ℕ
key_down = 3

abbrev pub window_update : ℕ
window_update = 6

abbrev pub window_activate : ℕ
window_activate = 8

abbrev pub mouse_move : ℕ
mouse_move = 10

pub record EventManager : Type 0 where
  pub activate_events : List EventRecord
  pub input_events : List EventRecord
  pub update_events : List EventRecord
  pub mouse_move_enabled : Bool
  pub is_shutting_down : Bool

-- NullEvent().
abbrev pub null_record : EventRecord
null_record = record { what = null_event; message = 0; when = 0; where_ = origin; modifiers = 0 }

-- `event_mask & (1 << n)`.
unfoldable pub has_bit : ℕ → ℕ → Bool
has_bit event_mask n = event_mask / 2 ^ n % 2 == 1

-- `event_mask & (2 | 4 | 8 | 16)`: some kind of key or button event is wanted.
unfoldable pub wants_input : ℕ → Bool
wants_input event_mask = not (event_mask / 2 % 16 == 0)

unfoldable pub is_event_enabled : ℕ → EventRecord → Bool
is_event_enabled event_mask event = has_bit event_mask event.what

unfoldable pub queue_window_activate : ℕ → ℕ → Bool → EventManager → EventManager
queue_window_activate now window on e = record e {
  activate_events = e.activate_events ++ event ∷ [];
}
  where
    event : EventRecord
    event = record {
      what = window_activate;
      message = window;
      when = now;
      where_ = origin;
      modifiers = if on then 1 else 0;
    }

unfoldable pub queue_window_update : ℕ → ℕ → EventManager → EventManager
queue_window_update now window e = record e { update_events = e.update_events ++ event ∷ [] }
  where
    event : EventRecord
    event = record {
      what = window_update;
      message = window;
      when = now;
      where_ = origin;
      modifiers = 0;
    }

-- The record of an input event at a place.
abbrev pub input_record : ℕ → ℕ → Point → EventRecord
input_record what now at = record {
  what = what;
  message = 0;
  when = now;
  where_ = at;
  modifiers = 0;
}

unfoldable pub queue_mouse_down : ℕ → Point → EventManager → EventManager
queue_mouse_down now at e = record e {
  input_events = e.input_events ++ input_record mouse_down now at ∷ [];
}

unfoldable pub queue_mouse_up : ℕ → Point → EventManager → EventManager
queue_mouse_up now at e = record e {
  input_events = e.input_events ++ input_record mouse_up now at ∷ [];
}

unfoldable pub queue_key_down : ℕ → EventManager → EventManager
queue_key_down now e = record e {
  input_events = e.input_events ++ input_record key_down now origin ∷ [];
}

-- PostEvent: an event of any type, at the end of the activate queue.
unfoldable pub queue_raw_event : ℕ → ℕ → ℕ → EventManager → EventManager
queue_raw_event now raw_event_type message e = record e {
  activate_events = e.activate_events ++ event ∷ [];
}
  where
    event : EventRecord
    event = record {
      what = raw_event_type;
      message = message;
      when = now;
      where_ = origin;
      modifiers = 0;
    }

unfoldable pub on_mouse_move : ℕ → Point → EventManager → EventManager
on_mouse_move now at e =
    if e.mouse_move_enabled
    then record e { input_events = e.input_events ++ input_record mouse_move now at ∷ [] }
    else e

-- AcceptMouseMove and RejectMouseMove: the life of a MouseMoveEnabler.
unfoldable pub set_mouse_move : Bool → EventManager → EventManager
set_mouse_move on e = record e { mouse_move_enabled = on }

unfoldable pub shutdown : EventManager → EventManager
shutdown e = record e { is_shutting_down = true }

unfoldable pub has_mouse_event : ℕ → EventManager → Bool
has_mouse_event type e = any (λ (event : EventRecord). event.what == type) e.input_events

unfoldable pub has_window_events : EventManager → Bool
has_window_events e = not (is_empty e.activate_events) || not (is_empty e.update_events)

-- The last part of GetNextEvent: `none` is its NullEvent.
unfoldable pub take_update :
    ℕ → List EventRecord → EventManager → Option (EventRecord × EventManager)
take_update event_mask [] e = none
take_update event_mask (event ∷ rest) e =
    if has_bit event_mask 6 then some (event, record e { update_events = rest }) else none

-- The middle part: the first enabled input event, if any kind of input is wanted at all.
unfoldable pub take_input : ℕ → EventManager → Option (EventRecord × EventManager)
unfolding take_update
take_input event_mask e =
    let later = take_update event_mask e.update_events e in
    if not (is_empty e.input_events) && wants_input event_mask
    then elim (find_if (is_event_enabled event_mask) e.input_events) [
      | some event ↦
          some (
            event,
            record e { input_events = erase_if (is_event_enabled event_mask) e.input_events },
          )
      | none ↦ later
    ]
    else later

unfoldable pub take_activate :
    ℕ → List EventRecord → EventManager → Option (EventRecord × EventManager)
unfolding take_input
take_activate event_mask [] e = take_input event_mask e
take_activate event_mask (event ∷ rest) e =
    let later = take_input event_mask e in
    if has_bit event_mask 8 then some (event, record e { activate_events = rest }) else later

unfoldable pub take_event : ℕ → EventManager → Option (EventRecord × EventManager)
unfolding take_activate
take_event event_mask e = take_activate event_mask e.activate_events e

unfoldable pub get_next_event : ℕ → EventManager → EventRecord × EventManager
unfolding take_event
get_next_event event_mask e = elim (take_event event_mask e) [
  | some taken ↦ taken
  | none ↦ (null_record, e)
]

-- `has_event_pred` of WaitNextEvent.
unfoldable pub has_event : ℕ → EventManager → Bool
has_event event_mask e =
    if e.is_shutting_down
    then true
    else if not (is_empty e.activate_events) && has_bit event_mask 8
    then true
    else if not (is_empty e.input_events) && wants_input event_mask
    then any (is_event_enabled event_mask) e.input_events
    else not (is_empty e.update_events) && has_bit event_mask 6

-- What other threads do.
pub data Arrival : Type 0 where
  activates : ℕ → ℕ → Bool → Arrival
  updates : ℕ → ℕ → Arrival
  presses releases moves : ℕ → Point → Arrival
  types : ℕ → Arrival
  posts : ℕ → ℕ → ℕ → Arrival
  enables : Bool → Arrival
  shuts_down : Arrival

unfoldable pub arrive : Arrival → EventManager → EventManager
unfolding queue_window_activate queue_window_update queue_mouse_down queue_mouse_up queue_key_down
    queue_raw_event on_mouse_move set_mouse_move shutdown
arrive (activates now window on) e = queue_window_activate now window on e
arrive (updates now window) e = queue_window_update now window e
arrive (presses now at) e = queue_mouse_down now at e
arrive (releases now at) e = queue_mouse_up now at e
arrive (moves now at) e = on_mouse_move now at e
arrive (types now) e = queue_key_down now e
arrive (posts now type message) e = queue_raw_event now type message e
arrive (enables on) e = set_mouse_move on e
arrive shuts_down e = shutdown e

unfoldable pub arrive_all : List Arrival → EventManager → EventManager
unfolding arrive
arrive_all [] e = e
arrive_all (a ∷ as') e = arrive_all as' (arrive a e)

-- WaitNextEvent; `meanwhile` is what arrives until `wait_for` returns, and `wait_for` returns the
-- value of its predicate at that time.
unfoldable pub wait_next_event : ℕ → ℕ → List Arrival → EventManager → EventRecord × EventManager
unfolding get_next_event
wait_next_event event_mask timeout meanwhile e =
    let (current_event, e1) = get_next_event event_mask e in
    if not (current_event.what == null_event) || timeout == 0
    then (current_event, e1)
    else if e1.is_shutting_down
    then (null_record, e1)
    else let e2 = arrive_all meanwhile e1 in
      if has_event event_mask e2 then get_next_event event_mask e2 else (null_record, e2)
