-- ===== src/Memory/Manager/Cells.antt =====
-- The words of system memory in which the handles' pointers are kept.
use cyder.Base.{ℕ, ◌+◌, ◌^◌, ◌≤◌, ◌<◌, ◌≡◌, ap, ◌∙◌, ◌⊎◌, List, arith, length, ok}
use cyder.Memory.Bytes.{read_bytes, write_bytes, host_bytes, host_value, htobe, betoh}
use cyder.Memory.Bytes.Laws.{
  read_bytes-write_bytes, write_bytes_outside, read_bytes_ext, length-host_bytes,
  host_value-host_bytes, betoh-htobe, htobe_lt,
}
use cyder.Memory.Region.{Store, read_uint, write_uint, notify, on_write, size_t}
use cyder.Memory.Manager.Defs.{
  MemoryManager, system_memory, system_memory_size, read_word, write_word,
}

-- The word that the memory holds at an address.
unfoldable pub cell : (ℕ → ℕ) → ℕ → ℕ
cell bytes a = betoh 4 (host_value (read_bytes bytes a 4))

-- The memory after a word has been written.
unfoldable pub stored : ℕ → ℕ → Store → Store
stored a v s =
    notify (on_write (size_t (0 + a)) 4)
      (record s { bytes = write_bytes s.bytes (0 + a) (host_bytes 4 (htobe 4 v)) })

pub read_word_lem :
    (m : MemoryManager) (a : ℕ)
    → a + 4 ≤ system_memory_size
    → read_word m a ≡ ok (cell m.memory.bytes a)
unfolding read_word read_uint system_memory cell
read_word_lem m a h = ground arith

pub write_word_lem :
    (m : MemoryManager) (a v : ℕ)
    → a + 4 ≤ system_memory_size
    → write_word a v m ≡ ok (record m { memory = stored a v m.memory })
unfolding write_word write_uint system_memory stored
write_word_lem m a v h = ground arith

bytes-stored :
    (a v : ℕ) (s : Store) → (stored a v s).bytes ≡ write_bytes s.bytes a (host_bytes 4 (htobe 4 v))
unfolding stored notify
bytes-stored a v s = ground arith

pub cell-stored_self : (a v : ℕ) (s : Store) → v < 2 ^ 32 → cell (stored a v s).bytes a ≡ v
unfolding cell
cell-stored_self a v s h = rw (bytes-stored a v s) (
    ap (λ bs. betoh 4 (host_value bs)) back
    ∙ ap (betoh 4) (host_value-host_bytes 4 (htobe 4 v) (htobe_lt 4 v))
    ∙ betoh-htobe 4 v h)
  where
    src : List ℕ
    src = host_bytes 4 (htobe 4 v)

    back : read_bytes (write_bytes s.bytes a src) a 4 ≡ src
    back = rw (length-host_bytes 4 (htobe 4 v)) at (read_bytes-write_bytes s.bytes a src)

pub cell-stored_ne :
    (a b v : ℕ) (s : Store)
    → (b + 4 ≤ a) ⊎ (a + 4 ≤ b)
    → cell (stored a v s).bytes b ≡ cell s.bytes b
unfolding cell
cell-stored_ne a b v s h = rw (bytes-stored a v s) (
    ap (λ bs. betoh 4 (host_value bs))
      (read_bytes_ext (write_bytes s.bytes a src) s.bytes b 4
        (λ x p q. write_bytes_outside s.bytes a src x (outside x p q))))
  where
    src : List ℕ
    src = host_bytes 4 (htobe 4 v)

    outside : (x : ℕ) → b ≤ x → x < b + 4 → (x < a) ⊎ (a + length src ≤ x)
    outside x p q = omega (arith, length-host_bytes 4 (htobe 4 v))

-- Bytes that no write touches keep their words.
pub cell_ext :
    (bytes bytes' : ℕ → ℕ) (a : ℕ)
    → ((x : ℕ) → a ≤ x → x < a + 4 → bytes x ≡ bytes' x)
    → cell bytes a ≡ cell bytes' a
unfolding cell
cell_ext bytes bytes' a h = ap (λ bs. betoh 4 (host_value bs)) (read_bytes_ext bytes bytes' a 4 h)
