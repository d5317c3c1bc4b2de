-- ===== src/Debug/Coverage.antt =====
-- The bytes that the spans without a tag cover.
use cyder.Base.{
  ℕ, ◌≡◌, ◌≤◌, refl, ap, ◌∙◌, Bool, true, false, not, ◌&&◌, ◌||◌, List, [], ◌∷◌, ltb, leb, is_empty,
  min, max, any, arith, Bool-cases, inl, inr,
}
use cyder.Debug.{
  MemorySpan, insert_span, sort_spans, span_less, join_span, write_loop, record_write,
}

-- A byte is in a span without a tag: it was written.
abbrev pub is_written : ℕ → MemorySpan → Bool
is_written a s = is_empty s.tag && (leb s.start a && ltb a s.end)

any-insert_span :
    (p : MemorySpan → Bool) (s : MemorySpan) (ts : List MemorySpan)
    → any p (insert_span s ts) ≡ p s || any p ts
unfolding insert_span any
any-insert_span p s [] = refl
any-insert_span p s (t ∷ ts) = elim (Bool-cases (span_less t s)) [
  | inl before ↦
      rw before (ap (λ b. p t || b) (any-insert_span p s ts) ∙ swap (p t) (p s) (any p ts))
  | inr after ↦ rw after refl
]
  where
    swap : (x y z : Bool) → x || (y || z) ≡ y || (x || z)
    swap x y z = ground arith

-- Sorting keeps what a list of spans covers.
pub any-sort_spans :
    (p : MemorySpan → Bool) (ts : List MemorySpan) → any p (sort_spans ts) ≡ any p ts
unfolding sort_spans any
any-sort_spans p [] = refl
any-sort_spans p (t ∷ ts) =
    any-insert_span p t (sort_spans ts) ∙ ap (λ b. p t || b) (any-sort_spans p ts)

-- Spans that do not end before they start.
abbrev pub Forward : List MemorySpan → Type 0
Forward [] = Unit {0}
Forward (s ∷ ss) = (s.start ≤ s.end) × Forward ss

join_covers :
    (a b c d e : ℕ)
    → b ≤ c
    → d ≤ e
    → ltb e b || ltb c d ≡ false
    → leb (min b d) a && ltb a (max c e) ≡ (leb d a && ltb a e) || (leb b a && ltb a c)
join_covers a b c d e h k t = ground (arith, h, k, t)

or_false : (x : Bool) → x || false ≡ x
or_false x = ground arith

or_assoc : (x y z : Bool) → x || (y || z) ≡ x || y || z
or_assoc x y z = ground arith

none_of_three : (x y z : Bool) → not x || y || z ≡ false → (x ≡ true) × (y || z ≡ false)
none_of_three x y z h = ground (arith, h)

rejoin : (w e t n : Bool) → e ≡ true → w || (t || n) ≡ e && t || w || n
rejoin w e t n h = ground (arith, h)

any-write_loop :
    (a : ℕ) (n : MemorySpan) (ts : List MemorySpan)
    → is_empty n.tag ≡ true
    → n.start ≤ n.end
    → Forward ts
    → any (is_written a) (write_loop n ts) ≡ any (is_written a) ts || (leb n.start a && ltb a n.end)
unfolding write_loop any join_span
any-write_loop a n [] h l o = ap (λ t. t && (leb n.start a && ltb a n.end) || false) h ∙ or_false _
any-write_loop a n (t ∷ ts) h l o =
    elim (Bool-cases (not (is_empty t.tag) || ltb t.end n.start || ltb n.end t.start)) [
      | inl apart ↦ rw apart (
          ap (λ b. is_written a t || b) (any-write_loop a n ts h l o.1)
          ∙ or_assoc (is_written a t) (any (is_written a) ts) (leb n.start a && ltb a n.end))
      | inr joined ↦
          let split =
            none_of_three (is_empty t.tag) (ltb t.end n.start) (ltb n.end t.start) joined in
          rw joined (
            any-write_loop a (join_span n t) ts h (omega (arith, l)) o.1
            ∙ ap (λ b. any (is_written a) ts || b)
                (join_covers a n.start n.end t.start t.end l o.0 split.1)
            ∙ rejoin (any (is_written a) ts) (is_empty t.tag) (leb t.start a && ltb a t.end)
                (leb n.start a && ltb a n.end) split.0)
    ]

-- For a write and spans that do not end before they start, the bytes in spans without a tag
-- after RecordWrite are those that were in one before and those that are written.
pub any-record_write :
    (a start end : ℕ) (ts : List MemorySpan)
    → start ≤ end
    → Forward ts
    → any (is_written a) (record_write start end ts)
      ≡ any (is_written a) ts || (leb start a && ltb a end)
unfolding record_write
any-record_write a start end ts h o =
    any-sort_spans (is_written a) _
    ∙ any-write_loop a record { start = start; end = end; tag = []; writes = 0 } ts refl h o
