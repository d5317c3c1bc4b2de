-- ===== src/Resources/Words.antt =====
-- Integers that are read from and written to the system memory.
use cyder.Base.{ℕ, ◌+◌, ◌^◌, ◌≤◌, ◌<◌, ◌≡◌, sym, ap, ◌∙◌, ◌⊎◌, arith, Status, ok}
use cyder.Memory.Bytes.{read_bytes, write_bytes, host_bytes, host_value, htobe, betoh}
use cyder.Memory.Bytes.Laws.{
  read_bytes-write_bytes, write_bytes_outside, read_bytes_ext, length-host_bytes,
  host_value-host_bytes, betoh-htobe, htobe_lt,
}
use cyder.Memory.Region.{Store, read_uint, write_uint, notify, on_write, on_read, size_t}
use cyder.Memory.Manager.Defs.{system_memory, system_memory_size}

-- The integer of w bytes that the memory holds at an address.
unfoldable pub value_at : ℕ → (ℕ → ℕ) → ℕ → ℕ
unfolding read_bytes host_value betoh
value_at w bytes a = betoh w (host_value (read_bytes bytes a w))

pub reads :
    (w a : ℕ) (s : Store)
    → a + w ≤ system_memory_size
    → (u : Store) × (read_uint w system_memory a s ≡ ok (value_at w s.bytes a, u))
      × (u.bytes ≡ s.bytes)
unfolding read_uint system_memory value_at
reads w a s h = (notify (on_read (size_t (0 + a)) w) s, ground arith, ground arith)

-- What a write of w bytes does to the memory.
pub record Wrote (w a v : ℕ) (old : ℕ → ℕ) (result : Status Store) : Type 0 where
  pub after : Store
  pub ends : result ≡ ok after
  pub holds : value_at w after.bytes a ≡ v
  pub outside : (x : ℕ) → (x < a) ⊎ (a + w ≤ x) → after.bytes x ≡ old x

write_result : ℕ → ℕ → ℕ → Store → Store
write_result w a v s =
    notify (on_write (size_t (0 + a)) w)
      (record s { bytes = write_bytes s.bytes (0 + a) (host_bytes w (htobe w v)) })

write_ends :
    (w a v : ℕ) (s : Store)
    → a + w ≤ system_memory_size
    → write_uint w system_memory a v s ≡ ok (write_result w a v s)
unfolding write_uint system_memory write_result
write_ends w a v s h = ground arith

write_bytes_lem :
    (w a v : ℕ) (s : Store)
    → (write_result w a v s).bytes ≡ write_bytes s.bytes a (host_bytes w (htobe w v))
unfolding write_result notify
write_bytes_lem w a v s = ground arith

pub writes :
    (w a v : ℕ) (s : Store)
    → a + w ≤ system_memory_size
    → v < 256 ^ w
    → Wrote w a v s.bytes (write_uint w system_memory a v s)
unfolding value_at
writes w a v s h l = record {
  after = write_result w a v s;
  ends = write_ends w a v s h;
  holds =
      ap (λ bytes. betoh w (host_value (read_bytes bytes a w))) (write_bytes_lem w a v s)
      ∙ ap (λ bs. betoh w (host_value bs))
          (ap (read_bytes (write_bytes s.bytes a (host_bytes w (htobe w v))) a)
              (sym (length-host_bytes w (htobe w v)))
            ∙ read_bytes-write_bytes s.bytes a (host_bytes w (htobe w v)))
      ∙ ap (betoh w) (host_value-host_bytes w (htobe w v) (htobe_lt w v))
      ∙ betoh-htobe w v l;
  outside = λ x o.
      ap (λ bytes. bytes x) (write_bytes_lem w a v s)
      ∙ write_bytes_outside s.bytes a (host_bytes w (htobe w v)) x
          (rw (length-host_bytes w (htobe w v)) o);
}

pub value_ext :
    (w : ℕ) (bytes bytes' : ℕ → ℕ) (a : ℕ)
    → ((x : ℕ) → a ≤ x → x < a + w → bytes x ≡ bytes' x)
    → value_at w bytes a ≡ value_at w bytes' a
unfolding value_at
value_ext w bytes bytes' a h =
    ap (λ bs. betoh w (host_value bs)) (read_bytes_ext bytes bytes' a w h)
