-- ===== src/Graphics/Bitmap/Clipped.antt =====
-- A clipped row against the pixels, by their columns and lines.
use cyder.Base.{
  ℕ, ◌*◌, ◌%◌, ◌<◌, ◌≤◌, ◌≡◌, refl, sym, ap, ap₂, fun_ext, subst, ◌∙◌, Bool, true, false, ◌&&◌,
  ◌||◌, List, [], ◌∷◌, ◌==◌, ltb, leb, if◌then◌else◌, Bool-cases, inl, inr, arith, Status, ok,
  ◌>>=◌, ℤ, pos, pos_part, ltb_ℤ, leb_ℤ, max_ℤ, min_ℤ, ◌≤ℤ◌,
}
use cyder.Graphics.Rect.{pixel_width_to_bytes}
use cyder.Graphics.Rect.Laws.{pixel_width_to_bytes-least}
use cyder.Graphics.Rows.{Range}
use cyder.Graphics.Rows.Meaning.{in_range, in_row, Row, in_row_before}
use cyder.Graphics.Bitmap.{Byte, FillMode, BitmapImage, set_full, fill_row_pixels, fill_ranges}
use cyder.Graphics.Bitmap.Strides.{bit_of, LineFilled, HoldsLines, range_LineFilled}

-- The columns of a range that lies on the screen, within a row from `start` to `end`.
abbrev pub in_clipped : ℤ → ℤ → List Range → ℕ → Bool
in_clipped start end scanline x =
    leb_ℤ start (pos x) && ltb_ℤ (pos x) end && in_row (pos x) scanline

-- The ranges of a row lie on a screen of this width.
abbrev pub EndsBy : ℕ → List Range → Type 0
EndsBy width [] = Unit {0}
EndsBy width (r ∷ rs) = (r.end ≤ℤ pos width) × EndsBy width rs

clip_start :
    (start s : ℤ) (x : ℕ)
    → pos 0 ≤ℤ s
    → leb (pos_part (max_ℤ start s)) x ≡ leb_ℤ start (pos x) && leb_ℤ s (pos x)
clip_start start s x n = ground arith

clip_end :
    (end e : ℤ) (x : ℕ) → ltb x (pos_part (min_ℤ end e)) ≡ ltb_ℤ (pos x) end && ltb_ℤ (pos x) e
clip_end end e x = ground arith

pair_up : (a b c d : Bool) → (a && b) && (c && d) ≡ a && c && (b && d)
pair_up a b c d = ground arith

clip_test :
    (start end : ℤ) (r : Range) (x : ℕ)
    → pos 0 ≤ℤ r.start
    → leb (pos_part (max_ℤ start r.start)) x && ltb x (pos_part (min_ℤ end r.end))
      ≡ leb_ℤ start (pos x) && ltb_ℤ (pos x) end && in_range (pos x) r
clip_test start end r x n =
    ap₂ ◌&&◌ (clip_start start r.start x n) (clip_end end r.end x)
    ∙ pair_up (leb_ℤ start (pos x)) (leb_ℤ r.start (pos x)) (ltb_ℤ (pos x) end)
        (ltb_ℤ (pos x) r.end)

clip_runs :
    (start end : ℤ) (r : Range)
    → pos 0 ≤ℤ r.start
    → leb_ℤ (min_ℤ end r.end) (max_ℤ start r.start) ≡ false
    → pos_part (max_ℤ start r.start) < pos_part (min_ℤ end r.end)
clip_runs start end r n h = ground (arith, h)

clip_within :
    (end e : ℤ) (width stride : ℕ)
    → e ≤ℤ pos width
    → width ≤ 8 * stride
    → pos_part (min_ℤ end e) ≤ 8 * stride
clip_within end e width stride h w = ground (arith, h, w)

clip_empty :
    (start end : ℤ) (r : Range) (x : ℤ)
    → leb_ℤ (min_ℤ end r.end) (max_ℤ start r.start) ≡ true
    → leb_ℤ start x && ltb_ℤ x end && in_range x r ≡ false
clip_empty start end r x h = ground (arith, h)

spread_test : (s e r q : Bool) → s && e && (r || q) ≡ (s && e && r) || (s && e && q)
spread_test s e r q = ground arith

apart_lem :
    (r : Range) (rest : List Range) (x : ℤ) → Row r.end rest → in_range x r && in_row x rest ≡ false
apart_lem r rest x o = ground (arith, in_row_before x r.end rest o)

twice_apart : (s e r q : Bool) → r && q ≡ false → (s && e && r) && (s && e && q) ≡ false
twice_apart s e r q h = ground arith

set_twice :
    (here t1 t2 : Bool) (new : Bool → Bool) (old : Bool)
    → t1 && t2 ≡ false
    → (if here && t2
        then new (if here && t1 then new old else old)
        else if here && t1
        then new old
        else old)
      ≡ (if here && (t1 || t2) then new old else old)
set_twice here t1 t2 new old h = ground arith

-- Two fills of a line whose tests exclude one another.
both_LineFilled :
    {mode : FillMode} {pattern : Byte} {row : ℕ} {t1 t2 : ℕ → Bool} {b : BitmapImage}
    {r : Status BitmapImage} (next : BitmapImage → Status BitmapImage)
    → ((x : ℕ) → t1 x && t2 x ≡ false)
    → (first : LineFilled mode pattern row t1 b r)
    → LineFilled mode pattern row t2 first.after (next first.after)
    → LineFilled mode pattern row (λ x. t1 x || t2 x) b (r >>= next)
both_LineFilled {mode = mode} {pattern = pattern} {row = row} {t1 = t1} {t2 = t2} {b = b} next apart
      first second =
    record {
      after = second.after;
      ends = rw first.ends second.ends;
      same_frame = (
        second.same_frame.0 ∙ first.same_frame.0,
        second.same_frame.1 ∙ first.same_frame.1,
        second.same_frame.2 ∙ first.same_frame.2,
        second.same_frame.3 ∙ first.same_frame.3,
      );
      pixels = λ x y c.
          let j = bit_of (pixel_width_to_bytes b.width) x y in
          let new = λ (old : Bool). set_full mode (pattern (j % 8)) old in
          let later =
            subst
              (λ w.
                x < 8 * pixel_width_to_bytes w
                → second.after.bitmap (bit_of (pixel_width_to_bytes w) x y) ≡ (
                    if (y == row) && t2 x
                    then set_full mode (pattern (bit_of (pixel_width_to_bytes w) x y % 8))
                        (first.after.bitmap (bit_of (pixel_width_to_bytes w) x y))
                    else first.after.bitmap (bit_of (pixel_width_to_bytes w) x y)))
              {x = first.after.width} {y = b.width} first.same_frame.0 (second.pixels x y) c in
          later
          ∙ ap (λ old. if (y == row) && t2 x then new old else old) (first.pixels x y c)
          ∙ set_twice (y == row) (t1 x) (t2 x) new (b.bitmap j) (apart x);
    }

nothing_LineFilled :
    (mode : FillMode) (pattern : Byte) (row : ℕ) (t : ℕ → Bool) (b : BitmapImage)
    → ((x : ℕ) → t x ≡ false)
    → LineFilled mode pattern row t b (ok b)
nothing_LineFilled mode pattern row t b h = record {
  after = b;
  ends = refl;
  same_frame = (refl, refl, refl, refl);
  pixels = λ x y c. unset (y == row) (t x) _ _ (h x);
}
  where
    unset : (here u : Bool) (new old : Bool) → u ≡ false → old ≡ (if here && u then new else old)
    unset here u new old h = ground arith

retest :
    {mode : FillMode} {pattern : Byte} {row : ℕ} {t u : ℕ → Bool} {b : BitmapImage}
    {r : Status BitmapImage}
    → ((x : ℕ) → t x ≡ u x)
    → LineFilled mode pattern row t b r
    → LineFilled mode pattern row u b r
retest {mode = mode} {pattern = pattern} {row = row} {t = t} {u = u} {b = b} {r = r} h f =
    subst (λ test. LineFilled mode pattern row test b r) {x = t} {y = u} (fun_ext h) f

-- The turn for one range of a scanline.
range_or_nothing :
    (mode : FillMode) (pattern : Byte) (row : ℕ) (start end : ℤ) (clip : Range) (b : BitmapImage)
    → row < b.height
    → HoldsLines b
    → pos 0 ≤ℤ clip.start
    → clip.end ≤ℤ pos b.width
    → LineFilled mode pattern row
        (λ x. leb_ℤ start (pos x) && ltb_ℤ (pos x) end && in_range (pos x) clip)
        b
        (if leb_ℤ (min_ℤ end clip.end) (max_ℤ start clip.start)
          then ok b
          else fill_row_pixels row
              (pos_part (max_ℤ start clip.start))
              (pos_part (min_ℤ end clip.end))
              pattern
              mode
              b)
range_or_nothing mode pattern row start end clip b r h n w =
    elim (Bool-cases (leb_ℤ (min_ℤ end clip.end) (max_ℤ start clip.start))) [
      | inl empty ↦
          rw empty
            (nothing_LineFilled mode pattern row _ b (λ x. clip_empty start end clip (pos x) empty))
      | inr runs ↦ rw runs (
          retest (λ x. clip_test start end clip x n)
            (range_LineFilled mode pattern row (pos_part (max_ℤ start clip.start))
              (pos_part (min_ℤ end clip.end)) b (clip_runs start end clip n runs) r
              (clip_within end clip.end b.width (pixel_width_to_bytes b.width) w
                (pixel_width_to_bytes-least b.width 0).0)
              h))
    ]

pub fill_ranges-LineFilled :
    (mode : FillMode) (pattern : Byte) (row : ℕ) (start end lo : ℤ) (scanline : List Range)
    (b : BitmapImage)
    → row < b.height
    → HoldsLines b
    → pos 0 ≤ℤ lo
    → Row lo scanline
    → EndsBy b.width scanline
    → LineFilled mode pattern row
        (in_clipped start end scanline)
        b
        (fill_ranges row start end scanline pattern mode b)
unfolding fill_ranges
fill_ranges-LineFilled mode pattern row start end lo [] b r h n o w =
    nothing_LineFilled mode pattern row _ b
      (λ x. nothing_in (leb_ℤ start (pos x)) (ltb_ℤ (pos x) end))
  where
    nothing_in : (s e : Bool) → s && e && false ≡ false
    nothing_in s e = ground arith
fill_ranges-LineFilled mode pattern row start end lo (clip ∷ scanline) b r h n o w =
    let from_zero : pos 0 ≤ℤ clip.start = omega (arith, n, o.0) in
    let here = range_or_nothing mode pattern row start end clip b r h from_zero w.0 in
    let f = here.same_frame in
    let rest =
      fill_ranges-LineFilled mode pattern row start end clip.end scanline here.after (rw f.1 r)
        (rw (f.0, f.1, f.2) h) (omega (arith, from_zero, o.1)) o.2 (rw f.0 w.1) in
    retest
      (λ x. sym (
        spread_test (leb_ℤ start (pos x)) (ltb_ℤ (pos x) end) (in_range (pos x) clip)
          (in_row (pos x) scanline)))
      (both_LineFilled (λ b'. fill_ranges row start end scanline pattern mode b')
        (λ x.
          twice_apart (leb_ℤ start (pos x)) (ltb_ℤ (pos x) end) (in_range (pos x) clip)
            (in_row (pos x) scanline) (apart_lem clip scanline (pos x) o.2))
        here rest)
