-- ===== src/Graphics/Bitmap/Bits.antt =====
-- What the masks and whole bytes of _FillRow do to each pixel.
use cyder.Base.{
  ℕ, zero, suc, ◌+◌, ◌-◌, ◌*◌, ◌/◌, ◌%◌, ◌≤◌, ◌≡◌, refl, ◌∙◌, Bool, true, false, not, ◌&&◌, ◌||◌,
  ◌==◌, ltb, leb, if◌then◌else◌, Bool-cases, inl, inr, arith, Status, ok, check,
}
use cyder.Graphics.Bitmap.{
  Byte, FillMode, copy, x_or, not_x_or, k_mask, masked, set_index_with_mask, set_full,
  fill_full_bytes, fill_aligned,
}

-- The pixels from one up to another are set, the others are as they were.
unfoldable pub filled_bits : FillMode → Byte → ℕ → ℕ → (ℕ → Bool) → ℕ → Bool
unfolding set_full
filled_bits mode pattern start end bits j =
    if leb start j && ltb j end then set_full mode (pattern (j % 8)) (bits j) else bits j

pub masked_lem :
    (mode : FillMode) (mask pattern old : Bool)
    → masked mode mask pattern old ≡ (if mask then set_full mode pattern old else old)
unfolding masked set_full
masked_lem copy mask pattern old = ground arith
masked_lem x_or mask pattern old = ground arith
masked_lem not_x_or mask pattern old = ground arith

nothing_set :
    (start_byte j : ℕ) (new old : Bool)
    → old ≡ (if leb (8 * start_byte) j && ltb j (8 * (start_byte + 0)) then new else old)
nothing_set start_byte j new old = ground arith

one_more_byte :
    (mode : FillMode) (start_byte count j : ℕ) (p old : Bool)
    → (if leb (8 * suc start_byte) j && ltb j (8 * (suc start_byte + count))
        then set_full mode p (if j / 8 == start_byte then set_full mode p old else old)
        else if j / 8 == start_byte
        then set_full mode p old
        else old)
      ≡ (if leb (8 * start_byte) j && ltb j (8 * (start_byte + suc count))
          then set_full mode p old
          else old)
one_more_byte mode start_byte count j p old = ground arith

fill_full_bytes_lem :
    (mode : FillMode) (pattern : Byte) (start_byte count : ℕ) (bits : ℕ → Bool) (j : ℕ)
    → fill_full_bytes mode pattern start_byte count bits j
      ≡ filled_bits mode pattern (8 * start_byte) (8 * (start_byte + count)) bits j
unfolding fill_full_bytes set_full filled_bits
fill_full_bytes_lem mode pattern start_byte zero bits j = nothing_set start_byte j _ _
fill_full_bytes_lem mode pattern start_byte (suc count) bits j =
    fill_full_bytes_lem mode pattern (suc start_byte) count _ j
    ∙ one_more_byte mode start_byte count j (pattern (j % 8)) (bits j)

-- What it is for a fill to end well.
pub record Filled (mode : FillMode) (pattern : Byte) (start end : ℕ) (bits : ℕ → Bool)
    (result : Status (ℕ → Bool)) : Type 0 where
  pub after : ℕ → Bool
  pub ends : result ≡ ok after
  pub pixels : (j : ℕ) → after j ≡ filled_bits mode pattern start end bits j

full_fits :
    (start_byte remaining size : ℕ)
    → 8 * start_byte + remaining ≤ 8 * size
    → remaining / 8 == 0 || ltb (start_byte + remaining / 8 - 1) size ≡ true
full_fits start_byte remaining size h = ground arith

rest_fits :
    (start_byte remaining size : ℕ)
    → 8 * start_byte + remaining ≤ 8 * size
    → remaining % 8 == 0 || ltb (start_byte + remaining / 8) size ≡ true
rest_fits start_byte remaining size h = ground arith

no_rest :
    (start_byte remaining j : ℕ) (new old : Bool)
    → (remaining % 8 == 0) ≡ true
    → (if leb (8 * start_byte) j && ltb j (8 * (start_byte + remaining / 8)) then new else old)
      ≡ (if leb (8 * start_byte) j && ltb j (8 * start_byte + remaining) then new else old)
no_rest start_byte remaining j new old h = ground arith

some_rest :
    (start_byte remaining j : ℕ) (mode : FillMode) (p old : Bool)
    → (remaining % 8 == 0) ≡ false
    → (if j / 8 == start_byte + remaining / 8
        then masked mode (not (leb (remaining % 8) (j % 8))) p (
            if leb (8 * start_byte) j && ltb j (8 * (start_byte + remaining / 8))
            then set_full mode p old
            else old)
        else if leb (8 * start_byte) j && ltb j (8 * (start_byte + remaining / 8))
        then set_full mode p old
        else old)
      ≡ (if leb (8 * start_byte) j && ltb j (8 * start_byte + remaining)
          then set_full mode p old
          else old)
some_rest start_byte remaining j mode p old h =
    rw
      (masked_lem mode (not (leb (remaining % 8) (j % 8))) p (
        if leb (8 * start_byte) j && ltb j (8 * (start_byte + remaining / 8))
        then set_full mode p old
        else old))
      (ground arith)

pub fill_aligned-Filled :
    (mode : FillMode) (pattern : Byte) (start_byte remaining size : ℕ) (bits : ℕ → Bool)
    → 8 * start_byte + remaining ≤ 8 * size
    → Filled mode pattern
        (8 * start_byte)
        (8 * start_byte + remaining)
        bits
        (fill_aligned mode pattern start_byte remaining size bits)
unfolding fill_aligned check filled_bits set_index_with_mask k_mask
fill_aligned-Filled mode pattern start_byte remaining size bits h =
    elim (Bool-cases (remaining % 8 == 0)) [
      | inl whole ↦ record {
        after = fill_full_bytes mode pattern start_byte (remaining / 8) bits;
        ends = rw (full_fits start_byte remaining size h, whole) refl;
        pixels = λ j.
            fill_full_bytes_lem mode pattern start_byte (remaining / 8) bits j
            ∙ no_rest start_byte remaining j _ _ whole;
      }
      | inr more ↦ record {
        after =
            set_index_with_mask mode pattern (start_byte + remaining / 8)
              (λ place. not (k_mask (remaining % 8) place))
              (fill_full_bytes mode pattern start_byte (remaining / 8) bits);
        ends =
            rw (full_fits start_byte remaining size h, rest_fits start_byte remaining size h, more)
              refl;
        pixels = λ j.
            rw (fill_full_bytes_lem mode pattern start_byte (remaining / 8) bits j)
              (some_rest start_byte remaining j mode (pattern (j % 8)) (bits j) more);
      }
    ]
