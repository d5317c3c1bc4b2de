-- ===== src/Memory/Manager/Table.antt =====
-- `std::map<Handle, HandleMetadata>`: a list of pairs in the order of the keys, with find, insert
-- (which keeps an entry that is there), erase, and the store through an iterator.
use cyder.Base.{
  ℕ, suc, ◌+◌, ◌≤◌, ◌<◌, ◌≡◌, refl, List, [], ◌∷◌, Option, none, some, arith, ltb, ◌==◌,
  if◌then◌else◌, Bool-cases, inl, inr, ==_iff,
}

module _ {ℓ} {V : Type ℓ} where
  unfoldable pub find : ℕ → List (ℕ × V) → Option V
  find k [] = none
  find k ((j, v) ∷ m) = if j == k then some v else find k m

  unfoldable pub insert : ℕ → V → List (ℕ × V) → List (ℕ × V)
  insert k v [] = (k, v) ∷ []
  insert k v ((j, w) ∷ m) =
      if j == k then (j, w) ∷ m else if ltb k j then (k, v) ∷ (j, w) ∷ m else (j, w) ∷ insert k v m

  unfoldable pub erase : ℕ → List (ℕ × V) → List (ℕ × V)
  erase k [] = []
  erase k ((j, v) ∷ m) = if j == k then m else (j, v) ∷ erase k m

  -- `map[k] = v` where k is present, or `entry->second = v`; nothing where it is not.
  unfoldable pub assign : ℕ → V → List (ℕ × V) → List (ℕ × V)
  assign k v [] = []
  assign k v ((j, w) ∷ m) = if j == k then (j, v) ∷ m else (j, w) ∷ assign k v m

  pub find-insert :
      (k j : ℕ) (v : V) (m : List (ℕ × V))
      → find k m ≡ none
      → find j (insert k v m) ≡ (if k == j then some v else find j m)
  unfolding find insert
  find-insert k j v [] h = refl
  find-insert k j v ((i, w) ∷ m) h = ground (arith, find-insert k j v m)

  pub find-assign :
      (k j : ℕ) (v w : V) (m : List (ℕ × V))
      → find k m ≡ some w
      → find j (assign k v m) ≡ (if k == j then some v else find j m)
  unfolding find assign
  find-assign k j v w [] h = ground arith
  find-assign k j v w ((i, u) ∷ m) h = ground (arith, find-assign k j v w m)

  -- The keys lie in [lo, hi), and each is at least `gap` past the one before.
  abbrev pub Keys : ℕ → ℕ → ℕ → List (ℕ × V) → Type 0
  Keys gap lo hi [] = lo ≤ hi
  Keys gap lo hi ((k, v) ∷ m) = (lo ≤ k) × Keys gap (k + gap) hi m

  pub Keys-find : (gap lo hi k : ℕ) (m : List (ℕ × V)) → Keys gap lo hi m → k < lo → find k m ≡ none
  unfolding find
  Keys-find gap lo hi k [] h l = refl
  Keys-find gap lo hi k ((j, v) ∷ m) h l = ground (arith, Keys-find gap (j + gap) hi k m h.1)

  pub Keys-le : (gap lo hi : ℕ) (m : List (ℕ × V)) → Keys gap lo hi m → lo ≤ hi
  Keys-le gap lo hi [] h = h
  Keys-le gap lo hi ((j, v) ∷ m) h = omega (arith, Keys-le gap (j + gap) hi m h.1, h.0)

  pub find_above :
      (gap lo hi k : ℕ) (m : List (ℕ × V)) → Keys (suc gap) lo hi m → hi ≤ k → find k m ≡ none
  unfolding find
  find_above gap lo hi k [] h l = refl
  find_above gap lo hi k ((j, v) ∷ m) h l =
      ground
        (arith, Keys-le (suc gap) (j + suc gap) hi m h.1, find_above gap (j + suc gap) hi k m h.1)

  -- Erasing a key leaves it absent, and the others as they were.
  pub find-erase :
      (gap lo hi k j : ℕ) (m : List (ℕ × V))
      → Keys (suc gap) lo hi m
      → find j (erase k m) ≡ (if k == j then none else find j m)
  unfolding find erase
  find-erase gap lo hi k j [] h = ground arith
  find-erase gap lo hi k j ((i, v) ∷ m) h = elim (Bool-cases (i == k)) [
    | inl hit ↦ rw hit (elim (Bool-cases (k == j)) [
      | inl same ↦ rw same (
          Keys-find (suc gap) (i + suc gap) hi j m h.1
            (omega (arith, (==_iff i k).0 hit, (==_iff k j).0 same)))
      | inr other ↦ rw other (ground arith)
    ])
    | inr miss ↦ rw miss (elim (Bool-cases (i == j)) [
      | inl same ↦ rw same (ground arith)
      | inr other ↦ rw other (find-erase gap (i + suc gap) hi k j m h.1)
    ])
  ]

  Keys-weaken :
      (gap lo lo' hi : ℕ) (m : List (ℕ × V)) → lo' ≤ lo → Keys gap lo hi m → Keys gap lo' hi m
  Keys-weaken gap lo lo' hi [] l h = omega arith
  Keys-weaken gap lo lo' hi ((k, v) ∷ m) l h = (omega (arith, h.0), h.1)

  pub Keys-erase :
      (gap lo hi k : ℕ) (m : List (ℕ × V)) → Keys gap lo hi m → Keys gap lo hi (erase k m)
  unfolding erase
  Keys-erase gap lo hi k [] h = h
  Keys-erase gap lo hi k ((j, v) ∷ m) h =
      ground (arith, Keys-erase gap (j + gap) hi k m h.1, Keys-weaken gap (j + gap) lo hi m)

  pub Keys-assign :
      (gap lo hi k : ℕ) (v : V) (m : List (ℕ × V))
      → Keys gap lo hi m
      → Keys gap lo hi (assign k v m)
  unfolding assign
  Keys-assign gap lo hi k v [] h = h
  Keys-assign gap lo hi k v ((j, w) ∷ m) h = ground (arith, Keys-assign gap (j + gap) hi k v m h.1)

  -- A key at the upper bound goes to the end.
  pub Keys-insert :
      (gap lo hi : ℕ) (v : V) (m : List (ℕ × V))
      → Keys (suc gap) lo hi m
      → Keys (suc gap) lo (hi + suc gap) (insert hi v m)
  unfolding insert
  Keys-insert gap lo hi v [] h = (h, omega arith)
  Keys-insert gap lo hi v ((j, w) ∷ m) h =
      ground
        (arith, Keys-le (suc gap) (j + suc gap) hi m h.1, Keys-insert gap (j + suc gap) hi v m h.1)
