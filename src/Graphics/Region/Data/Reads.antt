-- ===== src/Graphics/Region/Data/Reads.antt =====
-- Reads of the values that a region holds, and Offset of a row of them.
use cyder.Base.{
  ℕ, zero, suc, ◌+◌, ◌-◌, ◌*◌, ◌/◌, ◌%◌, ◌^◌, ◌≤◌, ◌<◌, ◌≡◌, refl, true, false, List, [], ◌∷◌, ◌++◌,
  ok, must, arith, ℤ, pos, negsuc, wrap16, wrap16_id, IsInt16, signed16, bits16, length, ltb, subst,
  ap, ◌∙◌,
}
use cyder.Memory.Bytes.{read_bytes, host_value}
use cyder.Memory.Region.{Store, MemoryRegion, read_uint, size_t, create_sized}
use cyder.Memory.Reader.{next, next_type, next_region, has_next}
use cyder.Graphics.Rows.{Range, offset_row}
use cyder.Graphics.Region.{Scanline, row_data}
use cyder.Graphics.Region.Data.{next_int16, read_range, offset_row_data}

-- An array holds the values from a position on.
abbrev pub Holds : (ℕ → ℕ) → ℕ → List ℤ → Type 0
Holds mem a [] = Unit {0}
Holds mem a (v ∷ vs) =
    IsInt16 v × (mem a ≡ bits16 v % 256) × (mem (a + 1) ≡ bits16 v / 256) × Holds mem (a + 2) vs

pub Holds-append :
    (mem : ℕ → ℕ) (a : ℕ) (xs ys : List ℤ)
    → Holds mem a (xs ++ ys)
    → Holds mem a xs × Holds mem (a + 2 * length xs) ys
Holds-append mem a [] ys h =
    (tt, subst (λ b. Holds mem b ys) {x = a} {y = a + 2 * length {A = ℤ} []} (omega arith) h)
Holds-append mem a (x ∷ xs) ys h =
    let rest = Holds-append mem (a + 2) xs ys h.3 in
    (
      (h.0, h.1, h.2, rest.0),
      subst (λ b. Holds mem b ys) {x = a + 2 + 2 * length xs} {y = a + 2 * length (x ∷ xs)}
          (omega arith) rest.1,
    )

-- A little-endian region within whose maximum size the first n bytes lie, in an unwatched store.
pub record IsPlain (n : ℕ) (r : MemoryRegion) (s : Store) : Type 0 where
  pub little : r.is_big_endian ≡ false
  pub within : n ≤ r.maximum_size
  pub fits : r.maximum_size < 2 ^ 64
  pub unwatched : s.watched ≡ false

signed16_lem :
    (v : ℤ) → IsInt16 v → signed16 (bits16 v % 256 + 256 * (bits16 v / 256 + 256 * 0)) ≡ v
signed16_lem (pos n) h = ground (arith, h)
signed16_lem (negsuc n) h = ground (arith, h)

read_uint_lem :
    (n o low high : ℕ) (r : MemoryRegion) (s : Store)
    → IsPlain n r s
    → o + 2 ≤ n
    → s.bytes (r.origin + o) ≡ low
    → s.bytes (r.origin + o + 1) ≡ high
    → read_uint 2 r o s ≡ ok (low + 256 * (high + 256 * 0), s)
unfolding read_uint read_bytes host_value
read_uint_lem n o low high r s p h l e =
    ground (arith, p.little, p.within, p.fits, p.unwatched, h, l, e)

pub next_int16_lem :
    (n o : ℕ) (r : MemoryRegion) (s : Store) (v : ℤ) (vs : List ℤ)
    → IsPlain n r s
    → o + 2 ≤ n
    → Holds s.bytes (r.origin + o) (v ∷ vs)
    → next_int16 (record { region = r; offset = o }) s
      ≡ ok (v, record { region = r; offset = o + 2 }, s)
unfolding next_int16 next
next_int16_lem n o r s v vs p h held =
    rw
      (
        read_uint_lem n o (bits16 v % 256) (bits16 v / 256) r s p h held.1 held.2,
        signed16_lem v held.0,
        small,
      )
      refl
  where
    small : (o + 2) % 2 ^ 64 ≡ o + 2
    small = omega (arith, p.within, p.fits, h)

read_range_lem :
    (n o : ℕ) (r : MemoryRegion) (s : Store) (v w : ℤ) (vs : List ℤ)
    → IsPlain n r s
    → o + 4 ≤ n
    → Holds s.bytes (r.origin + o) (v ∷ w ∷ vs)
    → read_range r o s ≡ ok (record { start = v; end = w }, s)
unfolding read_range
read_range_lem n o r s v w vs p h held =
    rw
      (
        read_uint_lem n o (bits16 v % 256) (bits16 v / 256) r s p (omega (arith, h)) held.1 held.2,
        signed16_lem v held.0,
        small,
        read_uint_lem n (o + 2) (bits16 w % 256) (bits16 w / 256) r s p (omega (arith, h)) low high,
        signed16_lem w held.3.0,
      )
      refl
  where
    small : (o + 2) % 2 ^ 64 ≡ o + 2
    small = omega (arith, p.within, p.fits, h)

    low : s.bytes (r.origin + (o + 2)) ≡ bits16 w % 256
    low =
        subst (λ a. s.bytes a ≡ bits16 w % 256) {x = r.origin + o + 2} {y = r.origin + (o + 2)}
          (omega arith) held.3.1

    high : s.bytes (r.origin + (o + 2) + 1) ≡ bits16 w / 256
    high =
        subst (λ a. s.bytes a ≡ bits16 w / 256) {x = r.origin + o + 2 + 1}
          {y = r.origin + (o + 2) + 1} (omega arith) held.3.2

-- Offset of a row that a region holds, with fuel for its bytes.
pub offset_row_data_lem :
    (fuel o : ℕ) (dx : ℤ) (row : List Range) (r : MemoryRegion) (s : Store)
    → IsPlain r.size r s
    → 4 * length row ≤ fuel
    → o + 4 * length row ≡ r.size
    → Holds s.bytes (r.origin + o) (row_data row)
    → offset_row_data fuel dx (record { region = r; offset = o }) s
      ≡ ok (row_data (offset_row dx row), s)
unfolding offset_row_data row_data offset_row has_next next_type must
offset_row_data_lem zero o dx [] r s p f e held = rw (offset_row_data, ended) refl
  where
    ended : ltb o r.size ≡ false
    ended = ground (arith, e)
offset_row_data_lem (suc fuel) o dx [] r s p f e held = rw (offset_row_data, ended) refl
  where
    ended : ltb o r.size ≡ false
    ended = ground (arith, e)
offset_row_data_lem zero o dx (v ∷ row) r s p f e held = absurd (omega (arith, f))
offset_row_data_lem (suc fuel) o dx (v ∷ row) r s p f e held =
    rw
      (
        offset_row_data,
        goes,
        read_range_lem r.size o r s v.start v.end (row_data row) p (omega (arith, e)) held,
        small,
        offset_row_data_lem fuel (o + 4) dx row r s p (omega (arith, f)) (omega (arith, e)) rest,
      )
      refl
  where
    goes : ltb o r.size ≡ true
    goes = ground (arith, e)

    small : (o + 4) % 2 ^ 64 ≡ o + 4
    small = omega (arith, p.within, p.fits, e)

    rest : Holds s.bytes (r.origin + (o + 4)) (row_data row)
    rest =
        subst (λ a. Holds s.bytes a (row_data row)) {x = r.origin + o + 2 + 2}
          {y = r.origin + (o + 4)} (omega arith) held.3.3

unfoldable pub sub_region : MemoryRegion → ℕ → ℕ → MemoryRegion
sub_region r o n = record {
  origin = r.origin + o;
  size = n;
  maximum_size = size_t (r.maximum_size + 2 ^ 64 - o);
  base_offset = size_t (r.base_offset + o);
  is_big_endian = r.is_big_endian;
}

pub next_region_lem :
    (n o len : ℕ) (r : MemoryRegion) (s : Store)
    → IsPlain n r s
    → o + len ≤ n
    → next_region len (record { region = r; offset = o })
      ≡ ok (sub_region r o len, record { region = r; offset = o + len })
unfolding next_region create_sized sub_region
next_region_lem n o len r s p h = ground (arith, p.within, p.fits, h)

pub sub_region-IsPlain :
    (n o len : ℕ) (r : MemoryRegion) (s : Store)
    → IsPlain n r s
    → o + len ≤ n
    → IsPlain len (sub_region r o len) s
unfolding sub_region
sub_region-IsPlain n o len r s p h = record {
  little = p.little;
  within = omega (arith, p.within, p.fits, h);
  fits = omega arith;
  unwatched = p.unwatched;
}

pub length-row_data : (row : List Range) → length (row_data row) ≡ 2 * length row
unfolding row_data
length-row_data [] = refl
length-row_data (r ∷ row) = omega (arith, length-row_data row)

pub length-offset_row : (dx : ℤ) (row : List Range) → length (offset_row dx row) ≡ length row
unfolding offset_row
length-offset_row dx [] = refl
length-offset_row dx (r ∷ row) = ap suc (length-offset_row dx row)

-- The count of a row, which an offset keeps.
pub count_of :
    (row : List Range)
    → length row < 2 ^ 14
    → wrap16 (pos (length (row_data row))) ≡ pos (2 * length row)
count_of row h =
    ap (λ n. wrap16 (pos n)) (length-row_data row)
    ∙ wrap16_id (pos (2 * length row)) (omega arith, omega (arith, h))

-- Rows whose count fits an int16_t.
abbrev pub Fits : List Scanline → Type 0
Fits [] = Unit {0}
Fits (l ∷ ls) = (length l.row < 2 ^ 14) × Fits ls
