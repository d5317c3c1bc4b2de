-- ===== src/Graphics/Bitmap/Area.antt =====
-- FillRect against the pixels of the rectangle that the clip region holds.
use cyder.Base.{
  ℕ, ◌*◌, ◌%◌, ◌<◌, ◌≡◌, refl, sym, ap, fun_ext, subst, ◌∙◌, Bool, true, false, ◌&&◌, ◌||◌, ◌⊎◌,
  List, [], ◌==◌, ==_iff, if◌then◌else◌, Bool-cases, inl, inr, arith, Status, ok, ◌>>=◌, ℤ, pos,
  negsuc, ltb_ℤ, leb_ℤ, eqb_ℤ, ◌≤ℤ◌, ◌<ℤ◌,
}
use cyder.Graphics.Rect.{pixel_width_to_bytes}
use cyder.Graphics.Rows.{Range}
use cyder.Graphics.Rows.Meaning.{in_row, Row}
use cyder.Graphics.Region.{Region}
use cyder.Graphics.Region.Lines.{row_at, eqb_ℤ→eq}
use cyder.Graphics.Bitmap.{
  Byte, FillMode, BitmapImage, set_full, row_in_clip, fill_ranges, fill_row_clipped,
}
use cyder.Graphics.Bitmap.Strides.{bit_of, LineFilled, HoldsLines}
use cyder.Graphics.Bitmap.Clipped.{EndsBy, in_clipped, fill_ranges-LineFilled}

-- The clip region lies on the screen, line by line.
pub record OnScreen (b : BitmapImage) : Type 0 where
  pub holds : HoldsLines b
  pub rows : (y : ℤ) → Row (pos 0) (row_at y [] b.clip_region.lines)
  pub ends : (y : ℤ) → EndsBy b.width (row_at y [] b.clip_region.lines)
  pub lines :
      (y : ℤ) → (row_at y [] b.clip_region.lines ≡ []) ⊎ ((pos 0 ≤ℤ y) × (y <ℤ pos b.height))

-- What it is to set the pixels that pass a test, each line by its own pattern, and no others.
pub record Drawn (mode : FillMode) (pattern : ℕ → Byte) (test : ℕ → ℕ → Bool) (b : BitmapImage)
    (result : Status BitmapImage) : Type 0 where
  pub after : BitmapImage
  pub ends : result ≡ ok after
  pub same_frame :
      (after.width ≡ b.width)
      × (after.height ≡ b.height)
      × (after.bitmap_size ≡ b.bitmap_size)
      × (after.clip_region ≡ b.clip_region)
  pub pixels :
      (x y : ℕ)
      → x < 8 * pixel_width_to_bytes b.width
      → after.bitmap (bit_of (pixel_width_to_bytes b.width) x y) ≡ (
          if test x y
          then set_full mode
              (pattern y (bit_of (pixel_width_to_bytes b.width) x y % 8))
              (b.bitmap (bit_of (pixel_width_to_bytes b.width) x y))
          else b.bitmap (bit_of (pixel_width_to_bytes b.width) x y))

line_Drawn :
    {mode : FillMode} {pattern : ℕ → Byte} {row : ℕ} {p : Byte} {t : ℕ → Bool} {b : BitmapImage}
    {r : Status BitmapImage}
    → pattern row ≡ p
    → LineFilled mode p row t b r
    → Drawn mode pattern (λ x y. (y == row) && t x) b r
line_Drawn {mode = mode} {pattern = pattern} {row = row} {p = p} {t = t} {b = b} same f = record {
  after = f.after;
  ends = f.ends;
  same_frame = f.same_frame;
  pixels = λ x y c.
      let j = bit_of (pixel_width_to_bytes b.width) x y in
      f.pixels x y c ∙ (elim (Bool-cases (y == row)) [
        | inl hit ↦ rw hit (
            ap (λ (q : Byte). if t x then set_full mode (q (j % 8)) (b.bitmap j) else b.bitmap j)
              (sym (ap pattern ((==_iff y row).0 hit) ∙ same)))
        | inr miss ↦ rw miss refl
      ]);
}

pub redraw :
    {mode : FillMode} {pattern : ℕ → Byte} {t u : ℕ → ℕ → Bool} {b : BitmapImage}
    {r : Status BitmapImage}
    → ((x y : ℕ) → t x y ≡ u x y)
    → Drawn mode pattern t b r
    → Drawn mode pattern u b r
redraw {mode = mode} {pattern = pattern} {t = t} {u = u} {b = b} {r = r} h f =
    subst (λ test. Drawn mode pattern test b r) {x = t} {y = u} (fun_ext (λ x. fun_ext (h x))) f

pub nothing_Drawn :
    (mode : FillMode) (pattern : ℕ → Byte) (t : ℕ → ℕ → Bool) (b : BitmapImage)
    → ((x y : ℕ) → t x y ≡ false)
    → Drawn mode pattern t b (ok b)
nothing_Drawn mode pattern t b h = record {
  after = b;
  ends = refl;
  same_frame = (refl, refl, refl, refl);
  pixels = λ x y c. rw (h x y) refl;
}

set_once :
    (t1 t2 : Bool) (new : Bool → Bool) (old : Bool)
    → t1 && t2 ≡ false
    → (if t2 then new (if t1 then new old else old) else if t1 then new old else old)
      ≡ (if t1 || t2 then new old else old)
set_once t1 t2 new old h = ground arith

pub both_Drawn :
    {mode : FillMode} {pattern : ℕ → Byte} {t1 t2 : ℕ → ℕ → Bool} {b : BitmapImage}
    {r : Status BitmapImage} (next : BitmapImage → Status BitmapImage)
    → ((x y : ℕ) → t1 x y && t2 x y ≡ false)
    → (first : Drawn mode pattern t1 b r) → Drawn mode pattern t2 first.after (next first.after)
    → Drawn mode pattern (λ x y. t1 x y || t2 x y) b (r >>= next)
both_Drawn {mode = mode} {pattern = pattern} {t1 = t1} {t2 = t2} {b = b} next apart first second =
    record {
      after = second.after;
      ends = rw first.ends second.ends;
      same_frame = (
        second.same_frame.0 ∙ first.same_frame.0,
        second.same_frame.1 ∙ first.same_frame.1,
        second.same_frame.2 ∙ first.same_frame.2,
        second.same_frame.3 ∙ first.same_frame.3,
      );
      pixels = λ x y c.
          let j = bit_of (pixel_width_to_bytes b.width) x y in
          let new = λ (old : Bool). set_full mode (pattern y (j % 8)) old in
          let later =
            subst
              (λ w.
                x < 8 * pixel_width_to_bytes w
                → second.after.bitmap (bit_of (pixel_width_to_bytes w) x y) ≡ (
                    if t2 x y
                    then set_full mode (pattern y (bit_of (pixel_width_to_bytes w) x y % 8))
                        (first.after.bitmap (bit_of (pixel_width_to_bytes w) x y))
                    else first.after.bitmap (bit_of (pixel_width_to_bytes w) x y)))
              {x = first.after.width} {y = b.width} first.same_frame.0 (second.pixels x y) c in
          later
          ∙ ap (λ old. if t2 x y then new old else old) (first.pixels x y c)
          ∙ set_once (t1 x y) (t2 x y) new (b.bitmap j) (apart x y);
    }

pub OnScreen-Drawn :
    {mode : FillMode} {pattern : ℕ → Byte} {t : ℕ → ℕ → Bool} {b : BitmapImage}
    {r : Status BitmapImage}
    → (f : Drawn mode pattern t b r) → OnScreen b
    → OnScreen f.after
OnScreen-Drawn f o =
    let s = f.same_frame in
    record {
      holds = rw (s.0, s.1, s.2) o.holds;
      rows = rw s.3 o.rows;
      ends = rw (s.0, s.3) o.ends;
      lines = rw (s.1, s.3) o.lines;
    }

-- A pixel of the clip region, within the columns from one to another, on a line.
abbrev pub in_clip_line : Region → ℤ → ℤ → ℕ → ℕ → Bool
in_clip_line clip start end x y =
    (leb_ℤ clip.rect.top (pos y) && ltb_ℤ (pos y) clip.rect.bottom)
    && in_clipped start end (row_at (pos y) [] clip.lines) x

no_row :
    (a b c d : Bool) (x : ℕ) (row : List Range)
    → row ≡ []
    → (a && b) && (c && d && in_row (pos x) row) ≡ false
no_row a b c d x row h = rw h (ground arith)

-- A line on which the clip region has no columns.
empty_line :
    (mode : FillMode) (pattern : ℕ → Byte) (start end y0 : ℤ) (p : Byte) (b : BitmapImage)
    → row_at y0 [] b.clip_region.lines ≡ []
    → Drawn mode pattern
        (λ x y. eqb_ℤ (pos y) y0 && in_clip_line b.clip_region start end x y)
        b
        (fill_row_clipped y0 start end [] p mode b)
unfolding fill_row_clipped fill_ranges
empty_line mode pattern start end y0 p b h =
    subst
      (λ r.
        Drawn mode pattern (λ x y. eqb_ℤ (pos y) y0 && in_clip_line b.clip_region start end x y) b
          r)
      {x = ok b} {y = fill_row_clipped y0 start end [] p mode b}
      (sym (same_branches (row_in_clip y0 b)))
      (nothing_Drawn mode pattern _ b (λ x y. elim (Bool-cases (eqb_ℤ (pos y) y0)) [
        | inl hit ↦ rw hit (
            no_row (leb_ℤ b.clip_region.rect.top (pos y)) (ltb_ℤ (pos y) b.clip_region.rect.bottom)
              (leb_ℤ start (pos x)) (ltb_ℤ (pos x) end) x (row_at (pos y) [] b.clip_region.lines)
              (ap (λ z. row_at z [] b.clip_region.lines) (eqb_ℤ→eq (pos y) y0 hit) ∙ h))
        | inr miss ↦ rw miss refl
      ]))
  where
    same_branches : (c : Bool) → (if c then ok b else ok b) ≡ ok b
    same_branches true = refl
    same_branches false = refl

shown_test : (here a c : Bool) → a ≡ true → here && c ≡ here && (a && c)
shown_test here a c h = ground arith

hidden_test : (here a c : Bool) → a ≡ false → here && (a && c) ≡ false
hidden_test here a c h = ground arith

-- A line of the screen.
shown_line :
    (mode : FillMode) (pattern : ℕ → Byte) (start end : ℤ) (row : ℕ) (b : BitmapImage)
    → OnScreen b
    → row < b.height
    → Drawn mode pattern
        (λ x y. (y == row) && in_clip_line b.clip_region start end x y)
        b
        (fill_row_clipped
          (pos row)
          start
          end
          (row_at (pos row) [] b.clip_region.lines)
          (pattern row)
          mode
          b)
unfolding fill_row_clipped
shown_line mode pattern start end row b o l = elim (Bool-cases (row_in_clip (pos row) b)) [
  | inl inside ↦ rw inside (
      redraw
        (λ x y. elim (Bool-cases (y == row)) [
          | inl hit ↦ rw ((==_iff y row).0 hit) (
              shown_test (row == row) (row_in_clip (pos row) b)
                (in_clipped start end (row_at (pos row) [] b.clip_region.lines) x) inside)
          | inr miss ↦ rw miss refl
        ])
        (line_Drawn refl (
          fill_ranges-LineFilled mode (pattern row) row start end (pos 0)
            (row_at (pos row) [] b.clip_region.lines) b l o.holds (omega arith) (o.rows (pos row))
            (o.ends (pos row)))))
  | inr outside ↦ rw outside (
      nothing_Drawn mode pattern _ b (λ x y. elim (Bool-cases (y == row)) [
        | inl hit ↦ rw ((==_iff y row).0 hit) (
            hidden_test (row == row) (row_in_clip (pos row) b)
              (in_clipped start end (row_at (pos row) [] b.clip_region.lines) x) outside)
        | inr miss ↦ rw miss refl
      ]))
]

same_test : (y row : ℕ) → (y == row) ≡ eqb_ℤ (pos y) (pos row)
same_test y row = ground arith

pub line_step :
    (mode : FillMode) (pattern : ℕ → Byte) (start end y0 : ℤ) (p : Byte) (b : BitmapImage)
    → OnScreen b
    → ((y : ℕ) → y0 ≡ pos y → pattern y ≡ p)
    → Drawn mode pattern
        (λ x y. eqb_ℤ (pos y) y0 && in_clip_line b.clip_region start end x y)
        b
        (fill_row_clipped y0 start end (row_at y0 [] b.clip_region.lines) p mode b)
line_step mode pattern start end y0 p b o h = elim (o.lines y0) [
  | inl nothing ↦ rw nothing (empty_line mode pattern start end y0 p b nothing)
  | inr (from, below) ↦ go y0 from below h
]
  where
    go :
        (y0 : ℤ)
        → pos 0 ≤ℤ y0
        → y0 <ℤ pos b.height
        → ((y : ℕ) → y0 ≡ pos y → pattern y ≡ p)
        → Drawn mode pattern
            (λ x y. eqb_ℤ (pos y) y0 && in_clip_line b.clip_region start end x y)
            b
            (fill_row_clipped y0 start end (row_at y0 [] b.clip_region.lines) p mode b)
    go (pos row) from below h = rw (sym (h row refl)) (
        redraw (λ x y. ap (λ t. t && in_clip_line b.clip_region start end x y) (same_test y row))
          (shown_line mode pattern start end row b o (omega (arith, below))))
    go (negsuc n) from below h = absurd (omega (arith, from))
