-- ===== src/Graphics/Region/Lines.antt =====
-- What a region's scanlines mean: the row in force at each line, and RegionOp on these rows.
use cyder.Base.{
  ◌≡◌, refl, sym, ap, ap₂, ◌∙◌, Bool, true, false, ◌&&◌, List, [], ◌∷◌, ◌++◌, arith, ℤ, ltb_ℤ,
  leb_ℤ, eqb_ℤ, eq_of_parts, ◌≤ℤ◌, ◌<ℤ◌, Bool-cases, inl, inr, if◌then◌else◌,
}
use cyder.Graphics.Rows.{Range}
use cyder.Graphics.Rows.Meaning.{in_row, Row}
use cyder.Graphics.Rect.{Rect}
use cyder.Graphics.Region.{Scanline, Region, row_eq, write_changed, region_loop}

-- The row in force at a line: that of the last scanline that is not past it.
abbrev pub row_at : ℤ → List Range → List Scanline → List Range
row_at y row [] = row
row_at y row (l ∷ ls) = if leb_ℤ l.y y then row_at y l.row ls else row

-- A point lies in a region.
abbrev pub in_region : ℤ → ℤ → Region → Bool
in_region x y region = in_row x (row_at y [] region.lines)

-- Scanlines below `lo`, in order.
abbrev pub Lines : ℤ → List Scanline → Type 0
Lines lo [] = Unit {0}
Lines lo (l ∷ ls) = (lo <ℤ l.y) × Lines l.y ls

-- Rows in order, the ranges from `lo` on.
abbrev pub Rows : ℤ → List Scanline → Type 0
Rows lo [] = Unit {0}
Rows lo (l ∷ ls) = Row lo l.row × Rows lo ls

both_true : {a b c : Bool} → a && b && c ≡ true → (a ≡ true) × (b ≡ true) × (c ≡ true)
both_true {a = a} {b = b} {c = c} h = ground (arith, h)

pub eqb_ℤ→eq : (a b : ℤ) → eqb_ℤ a b ≡ true → a ≡ b
eqb_ℤ→eq a b h = eq_of_parts a b (ground (arith, h))

abbrev range_of : ℤ → ℤ → Range
range_of start end = record { start = start; end = end }

pub row_eq_lem : (r s : List Range) → row_eq r s ≡ true → r ≡ s
unfolding row_eq
row_eq_lem [] [] h = refl
row_eq_lem [] (b ∷ bs) h = ground (arith, h)
row_eq_lem (a ∷ as') [] h = ground (arith, h)
row_eq_lem (a ∷ as') (b ∷ bs) h =
    let parts = both_true h in
    ap₂ ◌∷◌ (ap₂ range_of (eqb_ℤ→eq a.start b.start parts.0) (eqb_ℤ→eq a.end b.end parts.1))
      (row_eq_lem as' bs parts.2)

pub leb-true : (a b : ℤ) → a ≤ℤ b → leb_ℤ a b ≡ true
leb-true a b h = ground (arith, h)

pub leb-false : (a b : ℤ) → b <ℤ a → leb_ℤ a b ≡ false
leb-false a b h = ground (arith, h)

pub leb→≤ : (a b : ℤ) → leb_ℤ a b ≡ true → a ≤ℤ b
leb→≤ a b h = ground (arith, h)

pub leb→> : (a b : ℤ) → leb_ℤ a b ≡ false → b <ℤ a
leb→> a b h = ground (arith, h)

pub ltb→≥ : (a b : ℤ) → ltb_ℤ a b ≡ false → b ≤ℤ a
ltb→≥ a b h = ground (arith, h)

pub ltb→< : (a b : ℤ) → ltb_ℤ a b ≡ true → a <ℤ b
ltb→< a b h = ground (arith, h)

pub row_at-before :
    (y lo : ℤ) (row : List Range) (ls : List Scanline)
    → Lines lo ls
    → y ≤ℤ lo
    → row_at y row ls ≡ row
row_at-before y lo row [] o h = refl
row_at-before y lo row (l ∷ ls) o h = rw (leb-false l.y y (omega (arith, o.0, h))) refl

pub Lines-weaken : (lo lo' : ℤ) (ls : List Scanline) → lo' ≤ℤ lo → Lines lo ls → Lines lo' ls
Lines-weaken lo lo' [] h o = tt
Lines-weaken lo lo' (l ∷ ls) h o = (omega (arith, h, o.0), o.1)

-- Writing only what changed shows the same rows.
row_at-write_changed :
    (y current : ℤ) (new last now : List Range) (rest : List Scanline)
    → (current ≤ℤ y → row_at y new rest ≡ now)
    → (y <ℤ current → (row_at y new rest ≡ new) × (last ≡ now))
    → row_at y last (write_changed current new last ++ rest) ≡ now
unfolding write_changed
row_at-write_changed y current new last now rest h k = elim (Bool-cases (row_eq new last)) [
  | inl same ↦
      let same' = row_eq_lem new last same in
      elim (Bool-cases (leb_ℤ current y)) [
        | inl past ↦ rw same (rw (sym same') (h (leb→≤ current y past)))
        | inr before ↦
            let k' = k (leb→> current y before) in rw same (rw (sym same') (k'.0 ∙ same' ∙ k'.1))
      ]
  | inr differs ↦ elim (Bool-cases (leb_ℤ current y)) [
    | inl past ↦ rw (differs, past) (h (leb→≤ current y past))
    | inr before ↦ rw (differs, before) ((k (leb→> current y before)).1)
  ]
]

-- From any state of the loop on, the rows that it writes are the operation on the two rows in force.
pub row_at-region_loop :
    (op : List Range → List Range → List Range) (y lo : ℤ) (row1 row2 last : List Range)
    (rect : Rect) (read1 read2 : List Scanline)
    → Lines lo read1
    → Lines lo read2
    → last ≡ op row1 row2
    → row_at y last (region_loop op row1 row2 last rect read1 read2).0
      ≡ op (row_at y row1 read1) (row_at y row2 read2)
unfolding region_loop
row_at-region_loop op y lo row1 row2 last rect [] [] o1 o2 h = h
row_at-region_loop op y lo row1 row2 last rect (l1 ∷ read1) [] o1 o2 h =
    let rest = row_at-region_loop op y l1.y l1.row row2 (op l1.row row2) _ read1 [] o1.1 tt refl in
    row_at-write_changed y l1.y (op l1.row row2) last _ _ (λ past. rw (leb-true l1.y y past) rest)
      (λ before.
        let same = row_at-before y l1.y l1.row read1 o1.1 (omega (arith, before)) in
        let later = leb-false l1.y y before in (rest ∙ ap (λ r. op r row2) same, rw later h))
row_at-region_loop op y lo row1 row2 last rect [] (l2 ∷ read2) o1 o2 h =
    let rest = row_at-region_loop op y l2.y row1 l2.row (op row1 l2.row) _ [] read2 tt o2.1 refl in
    row_at-write_changed y l2.y (op row1 l2.row) last _ _ (λ past. rw (leb-true l2.y y past) rest)
      (λ before.
        let same = row_at-before y l2.y l2.row read2 o2.1 (omega (arith, before)) in
        let later = leb-false l2.y y before in (rest ∙ ap (λ r. op row1 r) same, rw later h))
row_at-region_loop op y lo row1 row2 last rect (l1 ∷ read1) (l2 ∷ read2) o1 o2 h =
    elim (Bool-cases (ltb_ℤ l1.y l2.y)) [
      | inl first ↦
          let next2 : Lines l1.y (l2 ∷ read2) = (ltb→< l1.y l2.y first, o2.1) in
          let rest =
            row_at-region_loop op y l1.y l1.row row2 (op l1.row row2) _ read1 (l2 ∷ read2) o1.1
              next2 refl in
          rw (first, region_loop)
            (row_at-write_changed y l1.y (op l1.row row2) last _ _
              (λ past. rw (leb-true l1.y y past) rest)
              (λ before.
                let same1 = row_at-before y l1.y l1.row read1 o1.1 (omega (arith, before)) in
                let same2 = row_at-before y l1.y row2 (l2 ∷ read2) next2 (omega (arith, before)) in
                (
                  rest ∙ ap₂ op same1 same2,
                  rw (leb-false l1.y y before) (h ∙ ap (λ r. op row1 r) (sym same2)),
                )))
      | inr not_first ↦ elim (Bool-cases (ltb_ℤ l2.y l1.y)) [
        | inl second ↦
            let next1 : Lines l2.y (l1 ∷ read1) = (ltb→< l2.y l1.y second, o1.1) in
            let rest =
              row_at-region_loop op y l2.y row1 l2.row (op row1 l2.row) _ (l1 ∷ read1) read2 next1
                o2.1 refl in
            rw (not_first, second, region_loop)
              (row_at-write_changed y l2.y (op row1 l2.row) last _ _
                (λ past. rw (leb-true l2.y y past) rest)
                (λ before.
                  let same1 =
                    row_at-before y l2.y row1 (l1 ∷ read1) next1 (omega (arith, before)) in
                  let same2 = row_at-before y l2.y l2.row read2 o2.1 (omega (arith, before)) in
                  (
                    rest ∙ ap₂ op same1 same2,
                    rw (leb-false l2.y y before) (h ∙ ap (λ r. op r row2) (sym same1)),
                  )))
        | inr both ↦
            let le1 = ltb→≥ l1.y l2.y not_first in
            let le2 = ltb→≥ l2.y l1.y both in
            let rest =
              row_at-region_loop op y l1.y l1.row l2.row (op l1.row l2.row) _ read1 read2 o1.1
                (Lines-weaken l2.y l1.y read2 le2 o2.1) refl in
            rw (not_first, both, region_loop)
              (row_at-write_changed y l1.y (op l1.row l2.row) last _ _
                (λ past. rw (leb-true l1.y y past, leb-true l2.y y (omega (arith, le1, past))) rest)
                (λ before.
                  let before2 : y <ℤ l2.y = omega (arith, le2, before) in
                  let same1 = row_at-before y l1.y l1.row read1 o1.1 (omega (arith, before)) in
                  let same2 = row_at-before y l2.y l2.row read2 o2.1 (omega (arith, before2)) in
                  (
                    rest ∙ ap₂ op same1 same2,
                    rw (leb-false l1.y y before, leb-false l2.y y before2) h,
                  )))
      ]
    ]

-- A region in order: its scanlines, from below which it starts, and the rows of each.
abbrev pub IsRegion : ℤ → Region → Type 0
IsRegion lo region = Lines lo region.lines × Rows lo region.lines
