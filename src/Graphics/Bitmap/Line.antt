-- ===== src/Graphics/Bitmap/Line.antt =====
-- _FillRow against the pixels between its start and its end.
use cyder.Base.{
  ℕ, ◌+◌, ◌-◌, ◌*◌, ◌/◌, ◌%◌, ◌<◌, ◌≤◌, ◌≡◌, refl, ap₂, ◌∙◌, Bool, true, false, not, ◌&&◌, ◌==◌,
  ltb, leb, if◌then◌else◌, Bool-cases, inl, inr, arith, check,
}
use cyder.Graphics.Bitmap.{Byte, FillMode, k_mask, masked, set_index_with_mask, set_full, fill_line}
use cyder.Graphics.Bitmap.Bits.{filled_bits, masked_lem, Filled, fill_aligned-Filled}

start_fits :
    (line start end size : ℕ)
    → start < end
    → 8 * line + end ≤ 8 * size
    → ltb (line + start / 8) size ≡ true
start_fits line start end size l h = ground arith

one_byte :
    (line start end j : ℕ) (mode : FillMode) (p old : Bool)
    → start < end
    → (leb (start % 8 + (end - start)) 8) ≡ true
    → (if j / 8 == line + start / 8
        then masked mode
            (leb (start % 8) (j % 8) && not (leb (start % 8 + (end - start)) (j % 8)))
            p
            old
        else old)
      ≡ (if leb (8 * line + start) j && ltb j (8 * line + end) then set_full mode p old else old)
one_byte line start end j mode p old l h =
    rw
      (masked_lem mode (leb (start % 8) (j % 8) && not (leb (start % 8 + (end - start)) (j % 8))) p
        old)
      (ground arith)

first_byte :
    (line start end j : ℕ) (mode : FillMode) (p old : Bool)
    → start < end
    → (start % 8 == 0) ≡ false
    → (leb (start % 8 + (end - start)) 8) ≡ false
    → (if leb (8 * (line + start / 8 + 1)) j
          && ltb j (8 * (line + start / 8 + 1) + (end - start - (8 - start % 8)))
        then set_full mode p
            (if j / 8 == line + start / 8 then masked mode (leb (start % 8) (j % 8)) p old else old)
        else if j / 8 == line + start / 8
        then masked mode (leb (start % 8) (j % 8)) p old
        else old)
      ≡ (if leb (8 * line + start) j && ltb j (8 * line + end) then set_full mode p old else old)
first_byte line start end j mode p old l u h =
    rw (masked_lem mode (leb (start % 8) (j % 8)) p old) (ground arith)

aligned_ends :
    (line start end : ℕ)
    → start < end
    → (start % 8 == 0) ≡ true
    → (8 * (line + start / 8) ≡ 8 * line + start)
      × (8 * (line + start / 8) + (end - start) ≡ 8 * line + end)
aligned_ends line start end l h = ground arith

rest_within :
    (line start end size : ℕ)
    → start < end
    → 8 * line + end ≤ 8 * size
    → (leb (start % 8 + (end - start)) 8) ≡ false
    → 8 * (line + start / 8 + 1) + (end - start - (8 - start % 8)) ≤ 8 * size
rest_within line start end size l h u = ground arith

-- _FillRow of a row that is not empty and ends within the bitmap succeeds and sets exactly the
-- bits from its start to its end, each from the pattern's bit at its place in the byte and by
-- the mode.
pub fill_line-Filled :
    (mode : FillMode) (pattern : Byte) (line start end size : ℕ) (bits : ℕ → Bool)
    → start < end
    → 8 * line + end ≤ 8 * size
    → Filled mode pattern
        (8 * line + start)
        (8 * line + end)
        bits
        (fill_line mode pattern line start end size bits)
unfolding fill_line check filled_bits set_index_with_mask k_mask
fill_line-Filled mode pattern line start end size bits l h = elim (Bool-cases (start % 8 == 0)) [
  | inl aligned ↦
      let ends = aligned_ends line start end l aligned in
      let f =
        fill_aligned-Filled mode pattern (line + start / 8) (end - start) size bits
          (rw (ends.1) h) in
      record {
        after = f.after;
        ends = rw aligned f.ends;
        pixels = λ j. f.pixels j ∙ ap₂ (λ s e. filled_bits mode pattern s e bits j) ends.0 ends.1;
      }
  | inr inset ↦ elim (Bool-cases (leb (start % 8 + (end - start)) 8)) [
    | inl inside ↦ record {
      after =
          set_index_with_mask mode pattern (line + start / 8)
            (λ place. k_mask (start % 8) place && not (k_mask (start % 8 + (end - start)) place))
            bits;
      ends = rw (inset, start_fits line start end size l h, inside) refl;
      pixels = λ j. one_byte line start end j mode (pattern (j % 8)) (bits j) l inside;
    }
    | inr across ↦
        let first = set_index_with_mask mode pattern (line + start / 8) (k_mask (start % 8)) bits in
        let f =
          fill_aligned-Filled mode pattern (line + start / 8 + 1) (end - start - (8 - start % 8))
            size first (rest_within line start end size l h across) in
        record {
          after = f.after;
          ends = rw (inset, start_fits line start end size l h, across) f.ends;
          pixels = λ j.
              f.pixels j
              ∙ first_byte line start end j mode (pattern (j % 8)) (bits j) l inset across;
        }
  ]
]
