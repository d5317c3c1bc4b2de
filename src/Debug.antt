-- ===== src/Debug.antt =====
-- emu/debug/debug_manager.{h,cc}: the spans of memory that were written to or tagged. std::sort by
-- operator< is an insertion sort here; a tag is the bytes of a std::string.
pub mod Coverage
pub mod Tests
use cyder.Base.{
  ℕ, ◌+◌, ◌≡◌, Bool, true, false, not, ◌&&◌, ◌||◌, List, [], ◌∷◌, ◌++◌, ltb, leb, ◌==◌,
  if◌then◌else◌, is_empty, min, max, any,
}

pub record MemorySpan : Type 0 where
  pub start : ℕ
  pub end : ℕ
  pub tag : List ℕ
  pub writes : ℕ

unfoldable pub tag_eq : List ℕ → List ℕ → Bool
tag_eq [] [] = true
tag_eq [] (d ∷ ds) = false
tag_eq (c ∷ cs) [] = false
tag_eq (c ∷ cs) (d ∷ ds) = (c == d) && tag_eq cs ds

unfoldable pub tag_less : List ℕ → List ℕ → Bool
tag_less cs [] = false
tag_less [] (d ∷ ds) = true
tag_less (c ∷ cs) (d ∷ ds) = if c == d then tag_less cs ds else ltb c d

-- operator==, which does not look at `writes`.
unfoldable pub span_eq : MemorySpan → MemorySpan → Bool
unfolding tag_eq
span_eq s other = (s.start == other.start) && (s.end == other.end) && tag_eq s.tag other.tag

-- operator<: a longer span goes before a shorter one of the same start.
unfoldable pub span_less : MemorySpan → MemorySpan → Bool
unfolding tag_less
span_less s other =
    if not (s.start == other.start)
    then ltb s.start other.start
    else if not (s.end == other.end)
    then ltb other.end s.end
    else tag_less s.tag other.tag

unfoldable pub insert_span : MemorySpan → List MemorySpan → List MemorySpan
unfolding span_less
insert_span s [] = s ∷ []
insert_span s (t ∷ ts) = if span_less t s then t ∷ insert_span s ts else s ∷ t ∷ ts

unfoldable pub sort_spans : List MemorySpan → List MemorySpan
unfolding insert_span
sort_spans [] = []
sort_spans (s ∷ ss) = insert_span s (sort_spans ss)

unfoldable pub tag_memory : ℕ → ℕ → List ℕ → List MemorySpan → List MemorySpan
unfolding span_eq sort_spans any
tag_memory start end tag memory_tags =
    let span : MemorySpan = record { start = start; end = end; tag = tag; writes = 0 } in
    if any (λ s. span_eq s span) memory_tags
    then memory_tags
    else sort_spans (memory_tags ++ (span ∷ []))

-- One turn of the loop of RecordWrite at a span without a tag that it joins.
unfoldable pub join_span : MemorySpan → MemorySpan → MemorySpan
join_span new_span span = record {
  start = min new_span.start span.start;
  end = max new_span.end span.end;
  tag = new_span.tag;
  writes = new_span.writes + (span.writes + 1);
}

-- The loop, with the new span so far: the spans that are kept, and at the end the new one.
unfoldable pub write_loop : MemorySpan → List MemorySpan → List MemorySpan
unfolding join_span
write_loop new_span [] = new_span ∷ []
write_loop new_span (span ∷ spans) =
    let apart =
      not (is_empty span.tag) || ltb span.end new_span.start || ltb new_span.end span.start in
    let kept = span ∷ write_loop new_span spans in
    let joined = write_loop (join_span new_span span) spans in if apart then kept else joined

unfoldable pub record_write : ℕ → ℕ → List MemorySpan → List MemorySpan
unfolding write_loop sort_spans
record_write start end memory_tags =
    sort_spans (write_loop record { start = start; end = end; tag = []; writes = 0 } memory_tags)

unfoldable pub clear : List MemorySpan → List MemorySpan
clear memory_tags = []
