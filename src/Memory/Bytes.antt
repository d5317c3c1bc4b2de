-- ===== src/Memory/Bytes.antt =====
-- core/endian_helpers.h and the byte arrays under core/memory_region.h: an array is a function from
-- positions to bytes; a value of w bytes is held in the order of a little-endian host, and
-- `htobe` and `betoh` are the byte swap of that width.
pub mod Laws
use mathlib.Core.List.{reverse}
use cyder.Base.{ℕ, zero, suc, ◌+◌, ◌*◌, ◌/◌, ◌%◌, List, [], ◌∷◌, ◌==◌, if◌then◌else◌}

-- One store into the array.
abbrev pub update : (ℕ → ℕ) → ℕ → ℕ → ℕ → ℕ
update mem a b x = if x == a then b else mem x

-- memcpy out of the array and into it.
unfoldable pub read_bytes : (ℕ → ℕ) → ℕ → ℕ → List ℕ
read_bytes mem a zero = []
read_bytes mem a (suc n) = mem a ∷ read_bytes mem (a + 1) n

unfoldable pub write_bytes : (ℕ → ℕ) → ℕ → List ℕ → ℕ → ℕ
write_bytes mem a [] = mem
write_bytes mem a (b ∷ bs) = write_bytes (update mem a b) (a + 1) bs

-- The bytes of an integer of n bytes on the host, lowest first, and the integer of such bytes.
unfoldable pub host_bytes : ℕ → ℕ → List ℕ
host_bytes zero v = []
host_bytes (suc n) v = v % 256 ∷ host_bytes n (v / 256)

unfoldable pub host_value : List ℕ → ℕ
host_value [] = 0
host_value (b ∷ bs) = b + 256 * host_value bs

-- EndianSwap<IntegerType, n>: nothing at one byte, the byte swap at 2, 4 and 8.
unfoldable pub htobe : ℕ → ℕ → ℕ
unfolding host_bytes host_value
htobe n v = host_value (reverse (host_bytes n v))

unfoldable pub betoh : ℕ → ℕ → ℕ
unfolding host_bytes host_value
betoh n v = host_value (reverse (host_bytes n v))
