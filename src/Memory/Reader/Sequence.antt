-- ===== src/Memory/Reader/Sequence.antt =====
-- Reads in sequence, and the moves of the offset.
use cyder.Base.{ℕ, ◌+◌, ◌*◌, ◌/◌, ◌%◌, ◌^◌, ◌≡◌, ◌≤◌, ◌<◌, ◌≢◌, refl, false, ◌==◌, ok, ◌>>=◌, arith}
use cyder.Memory.Region.{Store, size_t, write_uint}
use cyder.Memory.Region.Access.{read_uint-write_uint}
use cyder.Memory.Reader.{MemoryReader, next, peek, offset_to, skip_next, align_to}

-- Next reads what Peek reads, and moves as SkipNext does; when Peek fails, Next fails with the same
-- error.
pub next-peek :
    (w : ℕ) (reader : MemoryReader) (s : Store)
    → next w reader s ≡ (peek w reader s >>= λ got. ok (got.0, skip_next w reader, got.1))
unfolding next peek skip_next
next-peek w reader s = refl

-- An integer of w bytes that was written at the reader's offset is the next that it reads; the
-- reader then stands behind it, and no byte has changed.
pub next-write_uint :
    (w v : ℕ) (reader : MemoryReader) (s t : Store)
    → v < 256 ^ w
    → reader.offset + w < 2 ^ 64
    → write_uint w reader.region reader.offset v s ≡ ok t
    → (u : Store) × (next w reader t ≡ ok (v, offset_to (reader.offset + w) reader, u))
      × (u.bytes ≡ t.bytes)
unfolding next offset_to
next-write_uint w v reader s t h l e =
    let read = read_uint-write_uint w reader.region reader.offset v s t h e in
    (read.0, rw (read.1, small (reader.offset + w) l) refl, read.2)
  where
    small : (n : ℕ) → n < 2 ^ 64 → n % 2 ^ 64 ≡ n
    small n h = omega (arith, h)

prod_lem : (b q : ℕ) → 2 ≤ b → 2 ≤ q → b + q ≤ b * q
prod_lem b q h k = grind arith

div_mod : (n d : ℕ) → 2 ≤ d → d * (n / d) + n % d ≡ n
div_mod n d h = grind arith

moves_back : (o b : ℕ) → 2 ≤ b → 2 ≤ o / b → o < 2 ^ 64 → o % b ≢ 0 → size_t (o / b + 1 * b) < o
moves_back o b h q l r = omega (arith, prod_lem b (o / b) h q, div_mod o b h)

-- AlignTo with a block size of at least two, from an offset below 2 ^ 64 that is not aligned
-- and lies in the third block or later, moves the offset back.
align_to_moves_back :
    (block_size : ℕ) (reader : MemoryReader)
    → 2 ≤ block_size
    → 2 ≤ reader.offset / block_size
    → reader.offset < 2 ^ 64
    → reader.offset % block_size ≢ 0
    → (align_to block_size reader).offset < reader.offset
unfolding align_to offset_to
align_to_moves_back block_size reader h q l r =
    rw (unaligned (reader.offset % block_size) r) (moves_back reader.offset block_size h q l r)
  where
    unaligned : (n : ℕ) → n ≢ 0 → (n == 0) ≡ false
    unaligned n h = ground (arith, h)
