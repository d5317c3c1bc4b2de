-- ===== src/Windows/Front.antt =====
-- What MoveToFront does to the order of the windows.
use mathlib.Core.List.{Perm}
use mathlib.Core.List.Perm
use cyder.Base.{
  ℕ, Bool, true, false, not, ◌||◌, List, [], ◌∷◌, ◌≡◌, refl, sym, ap, ◌∙◌, ◌==◌, ==_refl, any, All,
  filter_if, Bool-cases, inl, inr, arith, ok, crash, ==_iff,
}
use cyder.Windows.Defs.{remove_first, move_to_front}

-- A window is in a list.
abbrev pub is_in : ℕ → List ℕ → Bool
unfolding any
is_in ptr ws = any (◌==◌ ptr) ws

-- The windows other than one, in order.
abbrev pub others : ℕ → List ℕ → List ℕ
unfolding filter_if
others ptr ws = filter_if (λ w. not (ptr == w)) ws

remove_first-perm :
    (ptr : ℕ) (ws : List ℕ) → is_in ptr ws ≡ true → Perm (ptr ∷ remove_first ptr ws) ws
unfolding remove_first any
remove_first-perm ptr [] h = ground (arith, h)
remove_first-perm ptr (w ∷ ws) h = elim (Bool-cases (ptr == w)) [
  | inl hit ↦ rw hit (subst_head ((==_iff ptr w).0 hit))
  | inr miss ↦ rw miss (
      Perm.trans (Perm.swap w ptr (remove_first ptr ws))
        (Perm.cons w (remove_first-perm ptr ws (rw miss at h))))
]
  where
    subst_head : ptr ≡ w → Perm (ptr ∷ ws) (w ∷ ws)
    subst_head e = rw e (Perm.refl (w ∷ ws))

others-remove_first : (ptr : ℕ) (ws : List ℕ) → others ptr (remove_first ptr ws) ≡ others ptr ws
unfolding remove_first filter_if
others-remove_first ptr [] = refl
others-remove_first ptr (w ∷ ws) = ground (arith, others-remove_first ptr ws)

others_self : (ptr : ℕ) (ws : List ℕ) → others ptr (ptr ∷ ws) ≡ others ptr ws
unfolding filter_if
others_self ptr ws = rw (==_refl ptr) refl

or_true_right : (a b : Bool) → b ≡ true → a || b ≡ true
or_true_right a b h = ground arith

swap_or : (a b c : Bool) → a || (b || c) ≡ b || (a || c)
swap_or a b c = ground arith

-- What it is to have a window come first.
pub record BroughtToFront (ptr : ℕ) (before after : List ℕ) : Type 0 where
  pub rest : List ℕ
  pub first : after ≡ ptr ∷ rest
  pub same_windows : Perm after before
  pub same_order : others ptr after ≡ others ptr before
  pub same_members : (q : ℕ) → is_in q after ≡ is_in q before

is_in-remove_first :
    (q ptr : ℕ) (ws : List ℕ)
    → is_in ptr ws ≡ true
    → q == ptr || is_in q (remove_first ptr ws) ≡ is_in q ws
unfolding remove_first any
is_in-remove_first q ptr [] h = ground (arith, h)
is_in-remove_first q ptr (w ∷ ws) h = elim (Bool-cases (ptr == w)) [
  | inl hit ↦ rw hit (rw ((==_iff ptr w).0 hit) refl)
  | inr miss ↦ rw miss (
      swap_or (q == ptr) (q == w) (is_in q (remove_first ptr ws))
      ∙ ap (λ z. q == w || z) (is_in-remove_first q ptr ws (rw miss at h)))
]

-- MoveToFront of a window in the list succeeds: the window is first, the list holds the same
-- windows as often as before, and the others keep their order.
pub move_to_front-BroughtToFront :
    (ptr : ℕ) (ws : List ℕ)
    → is_in ptr ws ≡ true
    → (after : List ℕ) × (move_to_front ptr ws ≡ ok after) × BroughtToFront ptr ws after
unfolding move_to_front any filter_if
move_to_front-BroughtToFront ptr [] h = ground (arith, h)
move_to_front-BroughtToFront ptr (w ∷ ws) h = elim (Bool-cases (ptr == w)) [
  | inl hit ↦ (
    w ∷ ws,
    rw hit refl,
    record {
      rest = ws;
      first = ap (λ z. z ∷ ws) (sym ((==_iff ptr w).0 hit));
      same_windows = Perm.refl (w ∷ ws);
      same_order = refl;
      same_members = λ q. refl;
    },
  )
  | inr miss ↦
      let found = rw miss at h in
      (
        ptr ∷ w ∷ remove_first ptr ws,
        rw (miss, found) refl,
        record {
          rest = w ∷ remove_first ptr ws;
          first = refl;
          same_windows =
              Perm.trans (Perm.swap w ptr (remove_first ptr ws))
                (Perm.cons w (remove_first-perm ptr ws found));
          same_order =
              others_self ptr (w ∷ remove_first ptr ws)
              ∙ rw miss (ap (◌∷◌ w) (others-remove_first ptr ws));
          same_members = λ q.
              swap_or (q == ptr) (q == w) (is_in q (remove_first ptr ws))
              ∙ ap (λ z. q == w || z) (is_in-remove_first q ptr ws found);
        },
      )
]

-- A window that is not in the list ends the process.
pub move_to_front_missing :
    (ptr : ℕ) (ws : List ℕ) → is_in ptr ws ≡ false → move_to_front ptr ws ≡ crash
unfolding move_to_front any
move_to_front_missing ptr [] h = refl
move_to_front_missing ptr (w ∷ ws) h = elim (Bool-cases (ptr == w)) [
  | inl hit ↦ ground (arith, rw hit at h)
  | inr miss ↦ rw (miss, rw miss at h) refl
]

pub All-is_in {κ} : (P : ℕ → Type κ) (ws : List ℕ) → ((q : ℕ) → is_in q ws ≡ true → P q) → All P ws
unfolding any
All-is_in P [] f = tt
All-is_in P (w ∷ ws) f =
    (f w (rw (==_refl w) refl), All-is_in P ws (λ q h. f q (or_true_right (q == w) (is_in q ws) h)))
