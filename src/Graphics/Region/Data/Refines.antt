-- ===== src/Graphics/Region/Data/Refines.antt =====
-- Offset on the data of a region does what offset_lines does to its scanlines.
use cyder.Base.{
  ℕ, zero, suc, ◌+◌, ◌*◌, ◌^◌, ◌≤◌, ◌<◌, ◌≡◌, refl, true, false, List, [], ◌∷◌, ◌++◌, ok, must,
  arith, ℤ, pos, ◌+ℤ◌, wrap16, IsInt16, length, length-append, ltb, subst, sym, ap, ◌∙◌, All,
}
use cyder.Memory.Region.{Store, MemoryRegion, base_region}
use cyder.Memory.Reader.{has_next}
use cyder.Graphics.Rows.{Range, offset_row}
use cyder.Graphics.Region.{Scanline, row_data, write_scanline, write_lines, offset_lines}
use cyder.Graphics.Region.Data.{
  data_bytes, convert_region, row_bytes, offset_row_data, offset_data, offset_owned_data,
}
use cyder.Graphics.Region.Data.Reads.{
  Holds, Holds-append, IsPlain, next_int16_lem, next_region_lem, offset_row_data_lem, sub_region,
  sub_region-IsPlain, length-row_data, length-offset_row, count_of, Fits,
}

-- The row of the scanline at o, in the sub-region that NextRegion gives.
row_lem :
    (o : ℕ) (dx : ℤ) (row : List Range) (r : MemoryRegion) (s : Store)
    → IsPlain r.size r s
    → o + 2 * (2 * length row) ≤ r.size
    → Holds s.bytes (r.origin + o) (row_data row)
    → offset_row_data
        (2 * (2 * length row))
        dx
        (record { region = sub_region r o (2 * (2 * length row)); offset = 0 })
        s
      ≡ ok (row_data (offset_row dx row), s)
unfolding sub_region
row_lem o dx row r s p h held =
    offset_row_data_lem (2 * (2 * length row)) 0 dx row (sub_region r o (2 * (2 * length row))) s
      (sub_region-IsPlain r.size o (2 * (2 * length row)) r s p h) (omega arith) (omega arith)
      (subst (λ a. Holds s.bytes a (row_data row)) {x = r.origin + o} {y = r.origin + o + 0}
        (omega arith) held)

length-write_line :
    (l : Scanline) (ls : List Scanline)
    → length (write_lines (l ∷ ls)) ≡ 2 + (2 * length l.row + length (write_lines ls))
unfolding write_lines write_scanline
length-write_line l ls =
    omega (arith, length-append (row_data l.row) (write_lines ls), length-row_data l.row)

kept_count :
    (dx : ℤ) (row : List Range)
    → wrap16 (pos (length (row_data (offset_row dx row)))) ≡ wrap16 (pos (length (row_data row)))
kept_count dx row =
    ap (λ n. wrap16 (pos n))
      (length-row_data (offset_row dx row)
        ∙ ap (λ n. 2 * n) (length-offset_row dx row)
        ∙ sym (length-row_data row))

module _ (dx dy : ℤ) (r : MemoryRegion) (s : Store) where
  -- One turn: from the scanline at o to the one behind it.
  turn :
      (fuel o : ℕ) (l : Scanline) (ls : List Scanline) (rest : List ℤ)
      → IsPlain r.size r s
      → length l.row < 2 ^ 14
      → o + 4 + 2 * (2 * length l.row) ≤ r.size
      → Holds s.bytes (r.origin + o) (write_lines (l ∷ ls))
      → offset_data fuel dx dy (record { region = r; offset = o + 4 + 2 * (2 * length l.row) }) s
        ≡ ok (rest, s)
      → offset_data (suc fuel) dx dy (record { region = r; offset = o }) s
        ≡ ok (
          wrap16 (l.y +ℤ dy)
                ∷ wrap16 (pos (length (row_data l.row)))
                ∷ row_data (offset_row dx l.row)
              ++ rest,
          s,
        )
  unfolding offset_data write_lines write_scanline has_next must sub_region row_bytes
  turn fuel o l ls rest p f h held later =
      let count = wrap16 (pos (length (row_data l.row))) in
      let behind : Holds s.bytes (r.origin + (o + 2)) (count ∷ row_data l.row ++ write_lines ls) =
        subst (λ a. Holds s.bytes a (count ∷ row_data l.row ++ write_lines ls))
          {x = r.origin + o + 2} {y = r.origin + (o + 2)} (omega arith) held.3 in
      let row : Holds s.bytes (r.origin + (o + 2 + 2)) (row_data l.row) =
        (Holds-append s.bytes (r.origin + (o + 2 + 2)) (row_data l.row) (write_lines ls) (
          subst (λ a. Holds s.bytes a (row_data l.row ++ write_lines ls))
            {x = r.origin + (o + 2) + 2} {y = r.origin + (o + 2 + 2)} (omega arith) behind.3)).0 in
      rw
        (
          offset_data,
          goes,
          next_int16_lem r.size o r s l.y (count ∷ row_data l.row ++ write_lines ls) p
              (omega (arith, h)) held,
          next_int16_lem r.size (o + 2) r s count (row_data l.row ++ write_lines ls) p
              (omega (arith, h)) behind,
          count_of l.row f,
          next_region_lem r.size (o + 2 + 2) (2 * (2 * length l.row)) r s p (omega (arith, h)),
          row_lem (o + 2 + 2) dx l.row r s p (omega (arith, h)) row,
          there,
          later,
        )
        refl
    where
      goes : ltb o r.size ≡ true
      goes = ground (arith, h)

      there : o + 2 + 2 + 2 * (2 * length l.row) ≡ o + 4 + 2 * (2 * length l.row)
      there = omega arith

  -- The loop, with fuel for the bytes that are left.
  offset_data_lem :
      (fuel o : ℕ) (lines : List Scanline)
      → IsPlain r.size r s
      → Fits lines
      → 2 * length (write_lines lines) ≤ fuel
      → o + 2 * length (write_lines lines) ≡ r.size
      → Holds s.bytes (r.origin + o) (write_lines lines)
      → offset_data fuel dx dy (record { region = r; offset = o }) s
        ≡ ok (write_lines (offset_lines dx dy lines), s)
  unfolding offset_data write_lines write_scanline offset_lines has_next
  offset_data_lem zero o [] p f h e held = rw (offset_data, ended) refl
    where
      ended : ltb o r.size ≡ false
      ended = ground (arith, e)
  offset_data_lem (suc fuel) o [] p f h e held = rw (offset_data, ended) refl
    where
      ended : ltb o r.size ≡ false
      ended = ground (arith, e)
  offset_data_lem zero o (l ∷ ls) p f h e held = absurd (omega (arith, h, length-write_line l ls))
  offset_data_lem (suc fuel) o (l ∷ ls) p f h e held =
      turn fuel o l ls (write_lines (offset_lines dx dy ls)) p f.0
        (omega (arith, e, length-write_line l ls)) held
        (offset_data_lem fuel (o + 4 + 2 * (2 * length l.row)) ls p f.1
          (omega (arith, h, length-write_line l ls)) (omega (arith, e, length-write_line l ls))
          rest)
      ∙ ap
          (λ count. ok (
            wrap16 (l.y +ℤ dy) ∷ count ∷ row_data (offset_row dx l.row)
                ++ write_lines (offset_lines dx dy ls),
            s,
          ))
          (sym (kept_count dx l.row))
    where
      behind : Holds s.bytes (r.origin + o + 2 + 2 + 2 * length (row_data l.row)) (write_lines ls)
      behind =
          (Holds-append s.bytes (r.origin + o + 2 + 2) (row_data l.row) (write_lines ls) held.3.3).1

      rest : Holds s.bytes (r.origin + (o + 4 + 2 * (2 * length l.row))) (write_lines ls)
      rest =
          subst (λ a. Holds s.bytes a (write_lines ls))
            {x = r.origin + o + 2 + 2 + 2 * length (row_data l.row)}
            {y = r.origin + (o + 4 + 2 * (2 * length l.row))} (omega (arith, length-row_data l.row))
            behind

-- The bytes of a vector hold its values.
Holds-data_bytes :
    (mem : ℕ → ℕ) (a : ℕ) (vs : List ℤ)
    → All IsInt16 vs
    → ((x : ℕ) → mem (a + x) ≡ data_bytes vs x)
    → Holds mem a vs
unfolding data_bytes
Holds-data_bytes mem a [] fits h = tt
Holds-data_bytes mem a (v ∷ vs) fits h = (
  fits.0,
  ap mem {x = a} {y = a + 0} (omega arith) ∙ h 0,
  h 1,
  Holds-data_bytes mem (a + 2) vs fits.1
      (λ x. ap mem {x = a + 2 + x} {y = a + suc (suc x)} (omega arith) ∙ h (suc (suc x))),
)

-- Offset of a region, on the bytes of the vector that is written for scanlines of int16_t
-- values with rows of fewer than 2 ^ 14 ranges and fewer than 2 ^ 63 values in all, succeeds
-- within its fuel, and gives the vector that is written for the scanlines moved one by one.
pub offset_owned_data-write_lines :
    (dx dy : ℤ) (lines : List Scanline)
    → Fits lines
    → All IsInt16 (write_lines lines)
    → length (write_lines lines) < 2 ^ 63
    → offset_owned_data (write_lines lines) dx dy ≡ ok (write_lines (offset_lines dx dy lines))
unfolding offset_owned_data convert_region base_region
offset_owned_data-write_lines dx dy lines f fits h =
    let size = 2 * length (write_lines lines) in
    let held : Holds (data_bytes (write_lines lines)) (0 + 0) (write_lines lines) =
      Holds-data_bytes (data_bytes (write_lines lines)) 0 (write_lines lines) fits
        (λ x. ap (data_bytes (write_lines lines)) {x = 0 + x} {y = x} (omega arith)) in
    let data' = convert_region (write_lines lines) in
    rw
      (offset_data_lem dx dy (base_region size false) data'.1 size 0 lines
        (record { little = refl; within = omega arith; fits = omega (arith, h); unwatched = refl })
        f (omega arith) (omega arith) held)
      refl
