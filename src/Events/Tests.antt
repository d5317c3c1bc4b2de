-- ===== src/Events/Tests.antt =====
-- The theorems on events at small instances.
use mathlib.Core.List.{Perm}
use cyder.Base.{
  ℕ, ◌≡◌, ◌≢◌, refl, true, false, List, [], ◌∷◌, some, none, arith, find_if, erase_if, All, any,
  inl, inr,
}
use cyder.Events.Defs.{
  EventRecord, EventManager, Arrival, origin, input_record, null_record, has_bit, wants_input,
  is_event_enabled, take_event, has_event, arrive_all, wait_next_event, types, updates,
}
use cyder.Events.Queue.{pending, take_event-perm, IsTyped, drain, drain-pending}
use cyder.Events.Wait.{wait_next_event-take_event, wait_next_event_misses_update}

abbrev update_event : EventRecord
update_event = record { what = 6; message = 77; when = 5; where_ = origin; modifiers = 0 }

abbrev press : EventRecord
press = input_record 1 3 origin

abbrev key : EventRecord
key = input_record 3 4 origin

-- A press and a key wait, and an update.
abbrev waiting : EventManager
waiting = record {
  activate_events = [];
  input_events = press ∷ key ∷ [];
  update_events = update_event ∷ [];
  mouse_move_enabled = false;
  is_shutting_down = false;
}

-- The key has been taken.
abbrev without_key : EventManager
without_key = record waiting { input_events = press ∷ [] }

-- Mask 8: keys.
key_taken : take_event 8 waiting ≡ some (key, without_key)
unfolding take_event is_event_enabled find_if erase_if has_bit wants_input
key_taken = refl

take_event-perm_example : Perm (pending waiting) (key ∷ pending without_key)
take_event-perm_example = take_event-perm 8 waiting without_key key key_taken

waiting-IsTyped : IsTyped waiting
waiting-IsTyped = record {
  activate = tt;
  input = (inl refl, (inr (inr (inl refl)), tt));
  update = (refl, tt);
}

bit_8 : has_bit 0xFFFF 8 ≡ true
unfolding has_bit
bit_8 = refl

bit_6 : has_bit 0xFFFF 6 ≡ true
unfolding has_bit
bit_6 = refl

input_wanted : wants_input 0xFFFF ≡ true
unfolding wants_input
input_wanted = refl

all_enabled : All (λ r. is_event_enabled 0xFFFF r ≡ true) waiting.input_events
unfolding is_event_enabled has_bit
all_enabled = (refl, (refl, tt))

drain-pending_example : drain 3 0xFFFF waiting ≡ press ∷ key ∷ update_event ∷ []
drain-pending_example = drain-pending 0xFFFF waiting bit_8 bit_6 input_wanted all_enabled

abbrev idle : EventManager
idle = record {
  activate_events = [];
  input_events = [];
  update_events = [];
  mouse_move_enabled = false;
  is_shutting_down = false;
}

idle_lem : (event_mask : ℕ) → take_event event_mask idle ≡ none
unfolding take_event
idle_lem event_mask = refl

-- A key and an update arrive.
abbrev arrivals : List Arrival
arrivals = types 4 ∷ updates 5 77 ∷ []

abbrev later : EventManager
later = record idle { input_events = key ∷ []; update_events = update_event ∷ [] }

later_lem : arrive_all arrivals idle ≡ later
unfolding arrive_all
later_lem = refl

shuts : (arrive_all arrivals idle).is_shutting_down ≡ false
unfolding arrive_all
shuts = refl

event_there : has_event 0xFFFF (arrive_all arrivals idle) ≡ true
unfolding arrive_all has_event wants_input has_bit any is_event_enabled
event_there = refl

wait_next_event-take_event_example :
    take_event 0xFFFF (arrive_all arrivals idle) ≡ some (wait_next_event 0xFFFF 10 arrivals idle)
wait_next_event-take_event_example =
    wait_next_event-take_event 0xFFFF 10 arrivals idle (idle_lem 0xFFFF) (omega arith) refl shuts
      event_there

-- Mask 66: presses and updates; a key is not enabled by it.
no_activate : has_bit 66 8 ≡ false
unfolding has_bit
no_activate = refl

some_input : wants_input 66 ≡ true
unfolding wants_input
some_input = refl

update_wanted : has_bit 66 6 ≡ true
unfolding has_bit
update_wanted = refl

key_waits : (arrive_all arrivals idle).input_events ≢ []
unfolding arrive_all
key_waits h = ground (arith, h)

key_disabled : any (is_event_enabled 66) (arrive_all arrivals idle).input_events ≡ false
unfolding arrive_all any is_event_enabled has_bit
key_disabled = refl

update_waits : (arrive_all arrivals idle).update_events ≢ []
unfolding arrive_all
update_waits h = ground (arith, h)

wait_next_event_misses_update_example :
    (wait_next_event 66 10 arrivals idle ≡ (null_record, arrive_all arrivals idle))
    × (take_event 66 (arrive_all arrivals idle) ≢ none)
wait_next_event_misses_update_example =
    wait_next_event_misses_update 66 10 arrivals idle (idle_lem 66) (omega arith) refl shuts
      no_activate some_input key_waits key_disabled update_wanted update_waits
