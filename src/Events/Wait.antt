-- ===== src/Events/Wait.antt =====
-- WaitNextEvent: its predicate against what GetNextEvent would take.
use cyder.Base.{
  ℕ, ◌≡◌, ◌≢◌, refl, inl, inr, Bool, true, false, List, [], ◌∷◌, none, some, arith, find_if, any,
  Bool-cases, Option-cases,
}
use cyder.Events.Defs.{
  EventManager, has_bit, wants_input, is_event_enabled, take_event, get_next_event, null_record,
  Arrival, arrive_all, has_event, wait_next_event,
}

any-find_if {ℓ} :
    {A : Type ℓ} (p : A → Bool) (xs : List A) → any p xs ≡ true → (x : A) × (find_if p xs ≡ some x)
unfolding any find_if
any-find_if p [] h = cc
any-find_if p (x ∷ xs) h = elim (Bool-cases (p x)) [
  | inl hit ↦ (x, rw hit)
  | inr miss ↦ rw miss (any-find_if p xs (rw miss at h))
]

find_if-any {ℓ} : {A : Type ℓ} (p : A → Bool) (xs : List A) → any p xs ≡ false → find_if p xs ≡ none
unfolding any find_if
find_if-any p [] h = refl
find_if-any p (x ∷ xs) h = elim (Bool-cases (p x)) [
  | inl hit ↦ cc (rw hit at h)
  | inr miss ↦ rw miss (find_if-any p xs (rw miss at h))
]

-- When the predicate of the wait is true and nothing shuts down, an event is there to be taken.
pub has_event-take_event :
    (event_mask : ℕ) (e : EventManager)
    → e.is_shutting_down ≡ false
    → has_event event_mask e ≡ true
    → take_event event_mask e ≢ none
unfolding has_event take_event
has_event-take_event event_mask e s h n =
    ground (arith, any-find_if (is_event_enabled event_mask) e.input_events)

-- Input that the mask does not enable hides an update: the predicate is false though the update
-- is there to be taken.
pub has_event_misses_update :
    (event_mask : ℕ) (e : EventManager)
    → e.is_shutting_down ≡ false
    → has_bit event_mask 8 ≡ false
    → wants_input event_mask ≡ true
    → e.input_events ≢ []
    → any (is_event_enabled event_mask) e.input_events ≡ false
    → has_bit event_mask 6 ≡ true
    → e.update_events ≢ []
    → (has_event event_mask e ≡ false) × (take_event event_mask e ≢ none)
unfolding has_event take_event
has_event_misses_update event_mask e s a w i n u p =
    ground (arith, find_if-any (is_event_enabled event_mask) e.input_events n)

-- With nothing to take at first, a timeout that is not zero and no shutdown before or during
-- the wait, and the predicate true when the wait ends, WaitNextEvent gives the event that can
-- be taken then, and leaves the others.
pub wait_next_event-take_event :
    (event_mask timeout : ℕ) (meanwhile : List Arrival) (e : EventManager)
    → take_event event_mask e ≡ none
    → timeout ≢ 0
    → e.is_shutting_down ≡ false
    → (arrive_all meanwhile e).is_shutting_down ≡ false
    → has_event event_mask (arrive_all meanwhile e) ≡ true
    → take_event event_mask (arrive_all meanwhile e)
      ≡ some (wait_next_event event_mask timeout meanwhile e)
unfolding wait_next_event get_next_event
wait_next_event-take_event event_mask timeout meanwhile e n t s s' h =
    elim (Option-cases (take_event event_mask (arrive_all meanwhile e))) [
      | inl empty ↦ absurd (has_event-take_event event_mask (arrive_all meanwhile e) s' h empty)
      | inr (taken, e') ↦ ground arith
    ]

-- With nothing to take at first, a timeout that is not zero, no shutdown, and a mask that wants
-- updates and some input but no activate events, WaitNextEvent gives a null event when an
-- update has arrived together with input of which the mask enables none, though GetNextEvent
-- would take an event then.
pub wait_next_event_misses_update :
    (event_mask timeout : ℕ) (meanwhile : List Arrival) (e : EventManager)
    → take_event event_mask e ≡ none
    → timeout ≢ 0
    → e.is_shutting_down ≡ false
    → (arrive_all meanwhile e).is_shutting_down ≡ false
    → has_bit event_mask 8 ≡ false
    → wants_input event_mask ≡ true
    → (arrive_all meanwhile e).input_events ≢ []
    → any (is_event_enabled event_mask) (arrive_all meanwhile e).input_events ≡ false
    → has_bit event_mask 6 ≡ true
    → (arrive_all meanwhile e).update_events ≢ []
    → (wait_next_event event_mask timeout meanwhile e ≡ (null_record, arrive_all meanwhile e))
      × (take_event event_mask (arrive_all meanwhile e) ≢ none)
unfolding wait_next_event get_next_event
wait_next_event_misses_update event_mask timeout meanwhile e n t s s' a w i q u p =
    let miss = has_event_misses_update event_mask (arrive_all meanwhile e) s' a w i q u p in
    (ground (arith, miss), miss.1)
