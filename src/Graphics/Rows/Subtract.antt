-- ===== src/Graphics/Rows/Subtract.antt =====
-- The columns of the rows that Subtract gives.
use cyder.Base.{
  ◌≡◌, refl, sym, ap, ap₂, ◌∙◌, Bool, true, false, not, ◌&&◌, ◌||◌, List, [], ◌∷◌, arith, ℤ, ltb_ℤ,
  leb_ℤ, max_ℤ, ◌≤ℤ◌, ◌<ℤ◌, Bool-cases, inl, inr,
}
use cyder.Graphics.Rows.{Range, skip_before, push_before, push_rest, carve, subtract_row}
use cyder.Graphics.Rows.Meaning.{in_row, Row, in_row-append, in_row_before, Row-weaken}

-- The ranges that are skipped hold no column from the start of A on.
pub skip_before_lem :
    (x lo : ℤ) (a : Range) (bs : List Range)
    → Row lo bs
    → (a.start ≤ℤ x → in_row x (skip_before a bs) ≡ in_row x bs) × Row lo (skip_before a bs)
unfolding skip_before
skip_before_lem x lo a [] o = (λ h. refl, tt)
skip_before_lem x lo a (b ∷ bs) o =
    let rest = skip_before_lem x b.end a bs o.2 in
    elim (Bool-cases (leb_ℤ b.end a.start)) [
      | inl before ↦
          rw before
            (λ h. ground (arith, rest.0 h), Row-weaken b.end lo _ (omega (arith, o.0, o.1)) rest.1)
      | inr after ↦ rw after (λ h. refl, o)
    ]

push_rest_lem :
    (x current : ℤ) (a : Range) → in_row x (push_rest a current) ≡ leb_ℤ current x && ltb_ℤ x a.end
unfolding push_rest
push_rest_lem x current a = ground arith

push_before_lem :
    (x current : ℤ) (a b : Range)
    → b.start <ℤ a.end
    → in_row x (push_before a current b) ≡ leb_ℤ current x && ltb_ℤ x b.start
unfolding push_before
push_before_lem x current a b h = ground arith

-- With p: x is from `current` on, q: before the overlap, v: before its end, s: before A's end,
-- r: in a later overlap.
pub ltb→lt_ℤ : (x y : ℤ) → ltb_ℤ x y ≡ true → x <ℤ y
ltb→lt_ℤ x y h = ground (arith, h)

leb_of_not : (x y : ℤ) → ltb_ℤ x y ≡ false → y ≤ℤ x
leb_of_not x y h = ground (arith, h)

-- Something of A is left after an overlap, which then ends before A does.
pub more_left :
    (current : ℤ) (a b : Range)
    → leb_ℤ a.end (max_ℤ current b.end) ≡ false
    → max_ℤ current b.end <ℤ a.end
more_left current a b h = ground (arith, h)

more_past : (current : ℤ) (a b : Range) → leb_ℤ a.end (max_ℤ current b.end) ≡ false → b.end <ℤ a.end
more_past current a b h = ground (arith, h)

covered_lem :
    (x current : ℤ) (a b : Range)
    → current <ℤ a.end
    → leb_ℤ a.end (max_ℤ current b.end) ≡ true
    → ltb_ℤ x a.end && not (ltb_ℤ x b.end) ≡ false
covered_lem x current a b c h = ground (arith, c, h)

in_row_past : (x : ℤ) (b : Range) (bs : List Range) → b.end ≤ℤ x → in_row x bs ≡ in_row x (b ∷ bs)
in_row_past x b bs h = ground (arith, h)

leb-not : (x a : ℤ) → leb_ℤ a x ≡ not (ltb_ℤ x a)
leb-not x a = ground arith

swap_first :
    (l x : ℤ) (p s r v : Bool)
    → p && s && not (not (ltb_ℤ x l) && v || r) ≡ p && s && not (leb_ℤ l x && v || r)
swap_first l x p s r v = ap (λ q. p && s && not (q && v || r)) (sym (leb-not x l))

overlap_ends_inside :
    (p q v s r : Bool)
    → q && not v ≡ false
    → q && not s ≡ false
    → v && r ≡ false
    → p && q || (p && not v) && s && not r ≡ p && s && not (not q && v || r)
overlap_ends_inside p q v s r f g h = ground arith

overlap_covers_end :
    (p q v s r : Bool)
    → q && not s ≡ false
    → v && r ≡ false
    → s && not v ≡ false
    → p && q || (p && not v) && s ≡ p && s && not (not q && v || r)
overlap_covers_end p q v s r f g h = ground arith

overlap_after :
    (p q s r v : Bool)
    → s && not q ≡ false
    → s && r ≡ false
    → p && s ≡ p && s && not (not q && v || r)
overlap_after p q s r v f g = ground arith

leb-max : (x a b : ℤ) → leb_ℤ (max_ℤ a b) x ≡ leb_ℤ a x && not (ltb_ℤ x b)
leb-max x a b = ground arith

before_trans : (x a b : ℤ) → a ≤ℤ b → ltb_ℤ x a && not (ltb_ℤ x b) ≡ false
before_trans x a b h = ground arith

before-Row : (x e : ℤ) (rest : List Range) → Row e rest → ltb_ℤ x e && in_row x rest ≡ false
before-Row x e rest o = ground (arith, in_row_before x e rest o)

-- From `current` on, the range is pushed but for the overlaps.
carve_lem :
    (x lo current : ℤ) (a : Range) (bs : List Range)
    → Row lo bs
    → current <ℤ a.end
    → in_row x (carve a current bs).0 ≡ leb_ℤ current x && ltb_ℤ x a.end && not (in_row x bs)
unfolding carve
carve_lem x lo current a [] o c = ground (arith, push_rest_lem x current a)
carve_lem x lo current a (b ∷ bs) o c = elim (Bool-cases (ltb_ℤ b.start a.end)) [
  | inl inside ↦
      let p = leb_ℤ current x in
      let q = ltb_ℤ x b.start in
      let v = ltb_ℤ x b.end in
      let s = ltb_ℤ x a.end in
      let r = in_row x bs in
      let before = push_before_lem x current a b (ltb→lt_ℤ b.start a.end inside) in
      let no_gap = before_trans x b.start b.end (omega (arith, o.1)) in
      let inside' = before_trans x b.start a.end (omega (arith, ltb→lt_ℤ b.start a.end inside)) in
      let later = before-Row x b.end bs o.2 in
      elim (Bool-cases (leb_ℤ a.end (max_ℤ current b.end))) [
        | inl covered ↦
            rw (inside, covered, carve)
              (in_row-append x (push_before a current b) (push_rest a (max_ℤ current b.end))
                ∙ ap₂ ◌||◌ before (
                    push_rest_lem x (max_ℤ current b.end) a
                    ∙ ap (λ t. t && s) (leb-max x current b.end))
                ∙ overlap_covers_end p q v s r inside' later (covered_lem x current a b c covered)
                ∙ swap_first b.start x p s r v)
        | inr more ↦
            let rest =
              carve_lem x b.end (max_ℤ current b.end) a bs o.2 (more_left current a b more) in
            rw (inside, more, carve)
              (in_row-append x (push_before a current b) (carve a (max_ℤ current b.end) bs).0
                ∙ ap₂ ◌||◌ before (rest ∙ ap (λ t. t && s && not r) (leb-max x current b.end))
                ∙ overlap_ends_inside p q v s r no_gap inside' later
                ∙ swap_first b.start x p s r v)
      ]
  | inr outside ↦
      rw (outside, carve)
        (push_rest_lem x current a
          ∙ overlap_after (leb_ℤ current x) (ltb_ℤ x b.start) (ltb_ℤ x a.end) (in_row x bs)
              (ltb_ℤ x b.end) (before_trans x a.end b.start (leb_of_not b.start a.end outside))
              (before-Row x a.end bs (
                Row-weaken b.end a.end bs (omega (arith, leb_of_not b.start a.end outside, o.1))
                  o.2))
          ∙ swap_first b.start x (leb_ℤ current x) (ltb_ℤ x a.end) (in_row x bs) (ltb_ℤ x b.end))
]

-- Past the end of the range, the overlaps that are left hold the columns that they all held.
pub carve_left :
    (x lo current : ℤ) (a : Range) (bs : List Range)
    → Row lo bs
    → current <ℤ a.end
    → (a.end ≤ℤ x → in_row x (carve a current bs).1 ≡ in_row x bs) × Row lo (carve a current bs).1
unfolding carve
carve_left x lo current a [] o c = (λ h. refl, tt)
carve_left x lo current a (b ∷ bs) o c = elim (Bool-cases (ltb_ℤ b.start a.end)) [
  | inl inside ↦ elim (Bool-cases (leb_ℤ a.end (max_ℤ current b.end))) [
    | inl covered ↦ rw (inside, covered) (λ h. refl, o)
    | inr more ↦
        let rest = carve_left x b.end (max_ℤ current b.end) a bs o.2 (more_left current a b more) in
        rw (inside, more)
          (
            λ h. rest.0 h ∙ in_row_past x b bs (omega (arith, h, more_past current a b more)),
            Row-weaken b.end lo _ (omega (arith, o.0, o.1)) rest.1,
          )
  ]
  | inr outside ↦ rw outside (λ h. refl, o)
]

-- A row, and what is left of it past the end of a range in it.
outside_range :
    (x : ℤ) (a : Range) (rest left bs : List Range)
    → Row a.end rest
    → (a.end ≤ℤ x → in_row x left ≡ in_row x bs)
    → in_row x rest && not (in_row x left) ≡ in_row x rest && not (in_row x bs)
outside_range x a rest left bs o h = elim (Bool-cases (leb_ℤ a.end x)) [
  | inl past ↦ ap (λ t. in_row x rest && not t) (h (ground (arith, past)))
  | inr before ↦
      let none_in_rest = in_row_before x a.end rest o (ground (arith, before)) in
      rw none_in_rest refl
]

spread_not : (p s q w : Bool) → p && s && not q || w && not q ≡ (p && s || w) && not q
spread_not p s q w = ground arith

-- What is skipped before a range makes no difference to it and to the rest of its row.
skipped_range :
    (x : ℤ) (a : Range) (rest bs' bs : List Range)
    → Row a.start (a ∷ rest)
    → (a.start ≤ℤ x → in_row x bs' ≡ in_row x bs)
    → in_row x (a ∷ rest) && not (in_row x bs') ≡ in_row x (a ∷ rest) && not (in_row x bs)
skipped_range x a rest bs' bs o h = elim (Bool-cases (leb_ℤ a.start x)) [
  | inl from ↦ ap (λ t. in_row x (a ∷ rest) && not t) (h (ground (arith, from)))
  | inr before ↦
      let none_in_row = in_row_before x a.start (a ∷ rest) o (ground (arith, before)) in
      ap (λ t. t && not (in_row x bs')) none_in_row
      ∙ sym (ap (λ t. t && not (in_row x bs)) none_in_row)
]

-- For rows in order, the row that Subtract gives holds a column when the first row holds it and
-- the second does not.
pub in_row-subtract_row :
    (x lo lo' : ℤ) (as' bs : List Range)
    → Row lo as'
    → Row lo' bs
    → in_row x (subtract_row as' bs) ≡ in_row x as' && not (in_row x bs)
unfolding subtract_row
in_row-subtract_row x lo lo' [] bs o o' = refl
in_row-subtract_row x lo lo' (a ∷ as') bs o o' =
    let skipped = skip_before_lem x lo' a bs o' in
    let bs' = skip_before a bs in
    let carved = carve_lem x lo' a.start a bs' skipped.1 o.1 in
    let left = carve_left x lo' a.start a bs' skipped.1 o.1 in
    let rest = in_row-subtract_row x a.end lo' as' (carve a a.start bs').1 o.2 left.1 in
    in_row-append x (carve a a.start bs').0 (subtract_row as' (carve a a.start bs').1)
    ∙ ap₂ ◌||◌ carved (rest ∙ outside_range x a as' (carve a a.start bs').1 bs' o.2 left.0)
    ∙ spread_not (leb_ℤ a.start x) (ltb_ℤ x a.end) (in_row x bs') (in_row x as')
    ∙ skipped_range x a as' bs' bs (omega arith, o.1, o.2) skipped.0
