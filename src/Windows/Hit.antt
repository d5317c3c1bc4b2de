-- ===== src/Windows/Hit.antt =====
-- GetWindowAt: the window that a point is in.
use cyder.Base.{
  ℕ, ◌≡◌, refl, sym, ap, ◌∙◌, ◌⊎◌, inl, inr, List, [], ◌∷◌, ◌++◌, All, Status, ok, err, crash,
  arith, Code,
}
use cyder.Trap.Stack.{ok_inj}
use cyder.Graphics.Rect.{Point}
use cyder.Windows.Defs.{WindowManager}
use cyder.Windows.Places.{
  RegionType, none_type, drag, content, close, part_at, window_at_loop, get_window_at,
}

-- The point is outside a window.
abbrev pub Misses : Point → WindowManager → ℕ → Type 0
Misses mouse m w = part_at mouse m w ≡ ok none_type

-- What the caller's variable holds after a hit.
abbrev pub target_after : RegionType → ℕ → ℕ → ℕ
target_after none_type before w = before
target_after drag before w = w
target_after content before w = w
target_after close before w = before

-- The point is outside all windows in front of one, and in a part of that one.
pub record Hits (mouse : Point) (m : WindowManager) (ws : List ℕ) (part : RegionType) : Type 0 where
  pub front : List ℕ
  pub window : ℕ
  pub back : List ℕ
  pub windows : ws ≡ front ++ window ∷ back
  pub in_front : All (Misses mouse m) front
  pub at : part_at mouse m window ≡ ok part

-- No window is hit, and the caller's variable stays; or one is, and it holds what that part calls for.
abbrev pub Outcome : Point → ℕ → WindowManager → List ℕ → RegionType → ℕ → Type 0
Outcome mouse target_window m ws part after =
    (All (Misses mouse m) ws × (part ≡ none_type) × (after ≡ target_window))
    ⊎ ((h : Hits mouse m ws part) × (after ≡ target_after part target_window h.window))

Status-cases {ℓ} :
    {A : Type ℓ} (s : Status A)
    → ((a : A) × (s ≡ ok a)) ⊎ (((c : Code) × (s ≡ err c)) ⊎ (s ≡ crash))
Status-cases (ok a) = inl (a, refl)
Status-cases (err c) = inr (inl (c, refl))
Status-cases crash = inr (inr refl)

not_err {ℓ} : {A : Type ℓ} {c : Code} {a : A} → err c ≡ ok a → ⊥
not_err h = ground (arith, h)

not_crash {ℓ} : {A : Type ℓ} {a : A} → crash ≡ ok a → ⊥
not_crash h = ground (arith, h)

later_hit :
    (mouse : Point) (m : WindowManager) (w : ℕ) (ws : List ℕ) (part : RegionType)
    → Misses mouse m w
    → Hits mouse m ws part
    → Hits mouse m (w ∷ ws) part
later_hit mouse m w ws part miss h = record {
  front = w ∷ h.front;
  window = h.window;
  back = h.back;
  windows = ap (◌∷◌ w) h.windows;
  in_front = (miss, h.in_front);
  at = h.at;
}

window_at_loop_lem :
    (mouse : Point) (target_window : ℕ) (ws : List ℕ) (m : WindowManager) (part : RegionType)
    (after : ℕ)
    → window_at_loop mouse target_window ws m ≡ ok (part, after)
    → Outcome mouse target_window m ws part after
unfolding window_at_loop later_hit
window_at_loop_lem mouse target_window [] m part after e =
    let same = ok_inj e in inl (tt, sym (ap (λ r. r.0) same), sym (ap (λ r. r.1) same))
window_at_loop_lem mouse target_window (w ∷ ws) m part after e =
    elim (Status-cases (part_at mouse m w)) [
      | inl (found, h) ↦ go found h (λ d. window_at_loop_lem mouse target_window ws m part after d)
      | inr (inl (c, h)) ↦ absurd (not_err (rw h at e))
      | inr (inr h) ↦ absurd (not_crash (rw h at e))
    ]
  where
    here :
        (found : RegionType)
        → part_at mouse m w ≡ ok found
        → (found ≡ part) × (after ≡ target_after found target_window w)
        → (h : Hits mouse m (w ∷ ws) part) × (after ≡ target_after part target_window h.window)
    here found h s = (
      record {
        front = [];
        window = w;
        back = ws;
        windows = refl;
        in_front = tt;
        at = h ∙ ap ok s.0;
      },
      s.1 ∙ ap (λ p. target_after p target_window w) s.0,
    )

    go :
        (found : RegionType)
        → part_at mouse m w ≡ ok found
        → (window_at_loop mouse target_window ws m ≡ ok (part, after)
            → Outcome mouse target_window m ws part after)
        → Outcome mouse target_window m (w ∷ ws) part after
    go none_type h rest = elim (rest (rw h at e)) [
      | inl (misses, p, a) ↦ inl ((h, misses), p, a)
      | inr (hit, a) ↦ inr (later_hit mouse m w ws part h hit, a)
    ]
    go drag h rest =
        let s = ok_inj (rw h at e) in inr (here drag h (ap (λ r. r.0) s, sym (ap (λ r. r.1) s)))
    go content h rest =
        let s = ok_inj (rw h at e) in inr (here content h (ap (λ r. r.0) s, sym (ap (λ r. r.1) s)))
    go close h rest =
        let s = ok_inj (rw h at e) in inr (here close h (ap (λ r. r.0) s, sym (ap (λ r. r.1) s)))

-- When GetWindowAt returns, either no window has the point in one of its parts and the caller's
-- variable stays as it was, or the part is that of the first window that has the point, and the
-- variable holds that window, unless the part is the close box, for which it stays as it was.
pub get_window_at_lem :
    (mouse : Point) (target_window : ℕ) (m : WindowManager) (part : RegionType) (after : ℕ)
    → get_window_at mouse target_window m ≡ ok (part, after)
    → Outcome mouse target_window m m.window_list part after
unfolding get_window_at
get_window_at_lem mouse target_window m part after e =
    window_at_loop_lem mouse target_window m.window_list m part after e
