-- ===== src/Resources/Jumps.antt =====
-- The jump table after a segment is loaded.
use cyder.Base.{
  ℕ, zero, suc, ◌+◌, ◌*◌, ◌^◌, ◌≤◌, ◌<◌, ◌≡◌, refl, sym, ap, subst, ◌∙◌, ◌⊎◌, inl, inr, arith,
  Status, ok, ◌==◌, if◌then◌else◌,
}
use cyder.Memory.Region.{Store, read_uint}
use cyder.Memory.Manager.Defs.{system_memory, system_memory_size, u32}
use cyder.Resources.Segment.{write_segment_table_entry, load_jumps}
use cyder.Resources.Words.{value_at, reads, writes, value_ext}

-- A loaded entry: the segment, a jump, and the routine's address.
pub record IsEntry (bytes : ℕ → ℕ) (a segment_id address : ℕ) : Type 0 where
  pub segment : value_at 2 bytes a ≡ segment_id
  pub jump : value_at 2 bytes (a + 2) ≡ 0x4EF9
  pub target : value_at 4 bytes (a + 4) ≡ address

IsEntry-ext :
    (bytes bytes' : ℕ → ℕ) (a segment_id address : ℕ)
    → ((x : ℕ) → a ≤ x → x < a + 8 → bytes' x ≡ bytes x)
    → IsEntry bytes a segment_id address
    → IsEntry bytes' a segment_id address
IsEntry-ext bytes bytes' a segment_id address h e = record {
  segment = value_ext 2 bytes' bytes a (λ x p q. h x p (omega arith)) ∙ e.segment;
  jump = value_ext 2 bytes' bytes (a + 2) (λ x p q. h x (omega arith) (omega arith)) ∙ e.jump;
  target = value_ext 4 bytes' bytes (a + 4) (λ x p q. h x (omega arith) (omega arith)) ∙ e.target;
}

record WroteEntry (a segment_id address : ℕ) (old : ℕ → ℕ) (result : Status Store) : Type 0 where
  after : Store
  ends : result ≡ ok after
  entry : IsEntry after.bytes a segment_id address
  outside : (x : ℕ) → (x < a) ⊎ (a + 8 ≤ x) → after.bytes x ≡ old x

before_or_after : (x a k l : ℕ) → (x < a) ⊎ (a + 8 ≤ x) → k + l ≤ 8 → (x < a + k) ⊎ (a + k + l ≤ x)
before_or_after x a k l (inl b) h = inl (omega arith)
before_or_after x a k l (inr b) h = inr (omega arith)

writes_entry :
    (a segment_id address : ℕ) (s : Store)
    → a + 8 ≤ system_memory_size
    → segment_id < 2 ^ 16
    → address < 2 ^ 32
    → WroteEntry a segment_id address s.bytes (write_segment_table_entry a segment_id address s)
unfolding write_segment_table_entry
writes_entry a segment_id address s h g l =
    let w1 = writes 2 a segment_id s (omega arith) g in
    let w2 = writes 2 (a + 2) 0x4EF9 w1.after (omega arith) (omega arith) in
    let w3 = writes 4 (a + 4) address w2.after (omega arith) l in
    record {
      after = w3.after;
      ends = rw (w1.ends, w2.ends) w3.ends;
      entry = record {
        segment =
            value_ext 2 w3.after.bytes w1.after.bytes a
              (λ x p q. w3.outside x (inl (omega arith)) ∙ w2.outside x (inl (omega arith)))
            ∙ w1.holds;
        jump =
            value_ext 2 w3.after.bytes w2.after.bytes (a + 2)
              (λ x p q. w3.outside x (inl (omega arith)))
            ∙ w2.holds;
        target = w3.holds;
      };
      outside = λ x o.
          w3.outside x (before_or_after x a 4 4 o (omega arith))
          ∙ w2.outside x (before_or_after x a 2 2 o (omega arith))
          ∙ w1.outside x (two_bytes x a o);
    }
  where
    two_bytes : (x a : ℕ) → (x < a) ⊎ (a + 8 ≤ x) → (x < a) ⊎ (a + 2 ≤ x)
    two_bytes x a (inl b) = inl b
    two_bytes x a (inr b) = inr (omega arith)

-- The routine's address, from the offset that the unloaded entry begins with.
abbrev pub routine_address : ℕ → (ℕ → ℕ) → ℕ → ℕ
unfolding value_at
routine_address base bytes a = u32 (base + value_at 2 bytes a)

-- What the loop over the entries of a segment does.
pub record Loaded (base segment_id table n absolute : ℕ) (old : ℕ → ℕ) (result : Status (ℕ × Store))
    : Type 0 where
  pub address : ℕ
  pub after : Store
  pub ends : result ≡ ok (address, after)
  pub first : address ≡ (if n == 0 then absolute else routine_address base old table)
  pub entries :
      (i : ℕ)
      → i < n
      → IsEntry after.bytes (table + i * 8) segment_id (routine_address base old (table + i * 8))
  pub outside : (x : ℕ) → (x < table) ⊎ (table + n * 8 ≤ x) → after.bytes x ≡ old x

turn_lem :
    (base segment_id table n absolute a v : ℕ) (s u t : Store)
    → u32 (table + n * 8) ≡ a
    → read_uint 2 system_memory a s ≡ ok (v, u)
    → write_segment_table_entry a segment_id (u32 (base + v)) u ≡ ok t
    → load_jumps base segment_id table (suc n) absolute s
      ≡ load_jumps base segment_id table n (u32 (base + v)) t
unfolding load_jumps
turn_lem base segment_id table n absolute a v s u t f r w = rw (f, r, w) refl

routine_same :
    (base a : ℕ) (new old : ℕ → ℕ)
    → ((x : ℕ) → a ≤ x → x < a + 2 → new x ≡ old x)
    → routine_address base new a ≡ routine_address base old a
unfolding routine_address
routine_same base a new old h = ap (λ v. u32 (base + v)) (value_ext 2 new old a h)

first_case :
    (n : ℕ) (address here later goal : ℕ)
    → address ≡ (if n == 0 then here else later)
    → (n ≡ 0 → here ≡ goal)
    → (0 < n → later ≡ goal)
    → (absolute : ℕ) → address ≡ (if suc n == 0 then absolute else goal)
first_case n address here later goal e z p absolute = ground arith

split_last : (i n : ℕ) → i < suc n → (i ≡ n) ⊎ (i < n)
split_last i n h = ground arith

-- The turn of the last entry, and those of the entries before it.
next_Loaded :
    (base segment_id table n absolute : ℕ) (old mid : ℕ → ℕ) (result : Status (ℕ × Store))
    → IsEntry mid (table + n * 8) segment_id (routine_address base old (table + n * 8))
    → ((x : ℕ) → (x < table + n * 8) ⊎ (table + n * 8 + 8 ≤ x) → mid x ≡ old x)
    → Loaded base segment_id table n (routine_address base old (table + n * 8)) mid result
    → Loaded base segment_id table (suc n) absolute old result
next_Loaded base segment_id table n absolute old mid result entry kept rest = record {
  address = rest.address;
  after = rest.after;
  ends = rest.ends;
  first =
      first_case n rest.address (routine_address base old (table + n * 8))
        (routine_address base mid table) (routine_address base old table) rest.first
        (λ z. ap (routine_address base old) (omega (arith, z)))
        (λ p. routine_same base table mid old (λ x b e. kept x (inl (omega arith)))) absolute;
  entries = λ i l. elim (split_last i n l) [
    | inl same ↦ rw same (
        IsEntry-ext mid rest.after.bytes (table + n * 8) segment_id _
          (λ x b e. rest.outside x (inr b)) entry)
    | inr before ↦
        subst (IsEntry rest.after.bytes (table + i * 8) segment_id)
          {x = routine_address base mid (table + i * 8)}
          {y = routine_address base old (table + i * 8)}
          (routine_same base (table + i * 8) mid old (λ x b e. kept x (inl (omega arith))))
          (rest.entries i before)
  ];
  outside = λ x o. rest.outside x (further x o) ∙ kept x (around x o);
}
  where
    further : (x : ℕ) → (x < table) ⊎ (table + suc n * 8 ≤ x) → (x < table) ⊎ (table + n * 8 ≤ x)
    further x (inl b) = inl b
    further x (inr b) = inr (omega arith)

    around :
        (x : ℕ)
        → (x < table) ⊎ (table + suc n * 8 ≤ x)
        → (x < table + n * 8) ⊎ (table + n * 8 + 8 ≤ x)
    around x (inl b) = inl (omega arith)
    around x (inr b) = inr (omega arith)

-- The loop of SegmentLoader::Load, over a table that lies within the memory and for a segment
-- id of 16 bits, ends with success: each entry is the segment, a jump and the routine's address
-- that was read there as an offset before; no other byte changes, and the result is the address
-- of the first entry's routine, or what it was if there are no entries.
pub load_jumps-Loaded :
    (base segment_id table n absolute : ℕ) (s : Store)
    → table + n * 8 ≤ system_memory_size
    → segment_id < 2 ^ 16
    → Loaded base segment_id table n absolute s.bytes
        (load_jumps base segment_id table n absolute s)
unfolding load_jumps routine_address
load_jumps-Loaded base segment_id table zero absolute s h g = record {
  address = absolute;
  after = s;
  ends = refl;
  first = refl;
  entries = λ i l. absurd (omega (arith, l));
  outside = λ x o. refl;
}
load_jumps-Loaded base segment_id table (suc n) absolute s h g =
    let a = table + n * 8 in
    let fits : u32 a ≡ a = omega arith in
    let read = reads 2 a s (omega arith) in
    let address = routine_address base s.bytes a in
    let put = writes_entry a segment_id address read.0 (omega arith) g (omega arith) in
    let rest = load_jumps-Loaded base segment_id table n address put.after (omega arith) g in
    let result =
      subst (Loaded base segment_id table n address put.after.bytes)
        {x = load_jumps base segment_id table n address put.after}
        {y = load_jumps base segment_id table (suc n) absolute s}
        (sym (
          turn_lem base segment_id table n absolute a (value_at 2 s.bytes a) s read.0 put.after fits
            read.1 put.ends))
        rest in
    next_Loaded base segment_id table n absolute s.bytes put.after.bytes _ put.entry
      (λ x o. put.outside x o ∙ ap (λ (f : ℕ → ℕ). f x) read.2) result
