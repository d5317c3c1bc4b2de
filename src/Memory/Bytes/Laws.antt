-- ===== src/Memory/Bytes/Laws.antt =====
-- Bytes that are written and read, and the byte swap.
use mathlib.Core.List.{reverse, reverse-reverse, reverse-cons}
use native.Mathlib.Nat.{pow-suc}
use cyder.Base.{
  ℕ, zero, suc, ◌+◌, ◌*◌, ◌/◌, ◌^◌, ◌≤◌, ◌<◌, ◌≡◌, refl, ap, ap₂, ◌⊎◌, List, [], ◌∷◌, arith, length,
  length-append, All, All-append, ◌∙◌,
}
use cyder.Memory.Bytes.{update, read_bytes, write_bytes, host_bytes, host_value, htobe, betoh}

pub write_bytes_outside :
    (mem : ℕ → ℕ) (a : ℕ) (bs : List ℕ) (x : ℕ)
    → (x < a) ⊎ (a + length bs ≤ x)
    → write_bytes mem a bs x ≡ mem x
unfolding write_bytes
write_bytes_outside mem a [] x h = refl
write_bytes_outside mem a (b ∷ bs) x h =
    ground (arith, write_bytes_outside (update mem a b) (a + 1) bs x)

pub read_bytes-write_bytes :
    (mem : ℕ → ℕ) (a : ℕ) (bs : List ℕ) → read_bytes (write_bytes mem a bs) a (length bs) ≡ bs
unfolding read_bytes write_bytes
read_bytes-write_bytes mem a [] = refl
read_bytes-write_bytes mem a (b ∷ bs) =
    ap₂ ◌∷◌ (ground (arith, write_bytes_outside (update mem a b) (a + 1) bs a))
      (read_bytes-write_bytes (update mem a b) (a + 1) bs)

-- Two arrays that agree on the range read alike.
pub read_bytes_ext :
    (mem mem' : ℕ → ℕ) (a n : ℕ)
    → ((x : ℕ) → a ≤ x → x < a + n → mem x ≡ mem' x)
    → read_bytes mem a n ≡ read_bytes mem' a n
unfolding read_bytes
read_bytes_ext mem mem' a zero h = refl
read_bytes_ext mem mem' a (suc n) h =
    ap₂ ◌∷◌ (h a (omega arith) (omega arith))
      (read_bytes_ext mem mem' (a + 1) n (λ x p q. h x (omega arith) (omega arith)))

pub length-read_bytes : (mem : ℕ → ℕ) (a n : ℕ) → length (read_bytes mem a n) ≡ n
unfolding read_bytes
length-read_bytes mem a zero = refl
length-read_bytes mem a (suc n) = ap suc (length-read_bytes mem (a + 1) n)

pub length-host_bytes : (n v : ℕ) → length (host_bytes n v) ≡ n
unfolding host_bytes
length-host_bytes zero v = refl
length-host_bytes (suc n) v = ap suc (length-host_bytes n (v / 256))

pub host_value-host_bytes : (n v : ℕ) → v < 256 ^ n → host_value (host_bytes n v) ≡ v
unfolding host_bytes host_value
host_value-host_bytes zero v h = omega arith
host_value-host_bytes (suc n) v h =
    let narrower : v / 256 < 256 ^ n = omega (arith, pow-suc 256 n) in
    omega (arith, host_value-host_bytes n (v / 256) narrower)

abbrev pub IsByte : ℕ → Type 0
IsByte b = b < 256

host_bytes-IsByte : (n v : ℕ) → All IsByte (host_bytes n v)
unfolding host_bytes
host_bytes-IsByte zero v = tt
host_bytes-IsByte (suc n) v = (omega arith, host_bytes-IsByte n (v / 256))

host_bytes-host_value : (bs : List ℕ) → All IsByte bs → host_bytes (length bs) (host_value bs) ≡ bs
unfolding host_bytes host_value
host_bytes-host_value [] h = refl
host_bytes-host_value (b ∷ bs) h =
    let byte : b < 256 = h.0 in
    let rest : (b + 256 * host_value bs) / 256 ≡ host_value bs = omega arith in
    ap₂ ◌∷◌ (omega arith) (rw rest (host_bytes-host_value bs h.1))

length-reverse : (xs : List ℕ) → length (reverse xs) ≡ length xs
length-reverse [] = refl
length-reverse (x ∷ xs) =
    omega
      (arith, ap length (reverse-cons x xs), length-append (reverse xs) (x ∷ []), length-reverse xs)

reverse-IsByte : (xs : List ℕ) → All IsByte xs → All IsByte (reverse xs)
reverse-IsByte [] h = tt
reverse-IsByte (x ∷ xs) h =
    rw (reverse-cons x xs)
      (All-append IsByte (reverse xs) (x ∷ []) (reverse-IsByte xs h.1) (h.0, tt))

-- Swapping the bytes twice gives the value back.
pub betoh-htobe : (n v : ℕ) → v < 256 ^ n → betoh n (htobe n v) ≡ v
unfolding betoh htobe
betoh-htobe n v h =
    ap (λ bs. host_value (reverse bs)) swapped
    ∙ ap host_value (reverse-reverse (host_bytes n v))
    ∙ host_value-host_bytes n v h
  where
    len : length (reverse (host_bytes n v)) ≡ n
    len = length-reverse (host_bytes n v) ∙ length-host_bytes n v

    swapped : host_bytes n (host_value (reverse (host_bytes n v))) ≡ reverse (host_bytes n v)
    swapped = rw len at (
        host_bytes-host_value (reverse (host_bytes n v))
          (reverse-IsByte (host_bytes n v) (host_bytes-IsByte n v)))

pub host_bytes_lt : (n v : ℕ) → host_value (host_bytes n v) < 256 ^ n
unfolding host_bytes host_value
host_bytes_lt zero v = omega arith
host_bytes_lt (suc n) v = omega (arith, pow-suc 256 n, host_bytes_lt n (v / 256))

host_value_lt : (bs : List ℕ) → All IsByte bs → host_value bs < 256 ^ length bs
unfolding host_value
host_value_lt [] h = omega arith
host_value_lt (b ∷ bs) h = omega (arith, h.0, pow-suc 256 (length bs), host_value_lt bs h.1)

pub htobe_lt : (n v : ℕ) → htobe n v < 256 ^ n
unfolding htobe
htobe_lt n v = subst_len (
    host_value_lt (reverse (host_bytes n v))
      (reverse-IsByte (host_bytes n v) (host_bytes-IsByte n v)))
  where
    subst_len :
        host_value (reverse (host_bytes n v)) < 256 ^ length (reverse (host_bytes n v))
        → host_value (reverse (host_bytes n v)) < 256 ^ n
    subst_len h = rw (length-reverse (host_bytes n v) ∙ length-host_bytes n v) at h
