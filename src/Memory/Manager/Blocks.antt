-- ===== src/Memory/Manager/Blocks.antt =====
-- Where the blocks lie in the heap, and the handle that contains an address.
use Prim.Native.String.{String}
use cyder.Base.{
  ℕ, suc, ◌+◌, ◌^◌, ◌≤◌, ◌<◌, ◌≡◌, ◌≢◌, refl, subst, ◌⊎◌, inl, false, List, [], ◌∷◌, some, arith,
  ok, check,
}
use cyder.Memory.Manager.Table.{
  find, insert, erase, assign, Keys, Keys-le, Keys-find, Keys-assign, find-assign,
}
use cyder.Memory.Manager.Defs.{
  MemoryManager, HandleMetadata, heap_start, heap_end, heap_handle_offset, allocate,
  allocate_handle, new_metadata, deallocate, update_handle, contains, find_containing,
  get_handle_that_contains,
}
use cyder.Memory.Manager.Invariant.{
  IsWellFormed, next_handle, allocated, allocate_handle-IsWellFormed, update_handle_lem,
}

-- In the order of the handles, the blocks follow one another within [lo, hi).
abbrev pub Packed : ℕ → ℕ → List (ℕ × HandleMetadata) → Type 0
Packed lo hi [] = lo ≤ hi
Packed lo hi ((h, d) ∷ m) = (lo ≤ d.start) × (d.end ≡ d.start + d.size) × Packed d.end hi m

abbrev pub IsPacked : MemoryManager → Type 0
IsPacked m = Packed (heap_start + heap_handle_offset) (heap_start + m.heap_offset) m.handles

Packed-extend :
    (lo hi hi' : ℕ) (m : List (ℕ × HandleMetadata)) → hi ≤ hi' → Packed lo hi m → Packed lo hi' m
Packed-extend lo hi hi' [] l p = omega arith
Packed-extend lo hi hi' ((h, d) ∷ m) l p = (p.0, p.1, Packed-extend d.end hi hi' m l p.2)

Packed-weaken :
    (lo lo' hi : ℕ) (m : List (ℕ × HandleMetadata)) → lo' ≤ lo → Packed lo hi m → Packed lo' hi m
Packed-weaken lo lo' hi [] l p = omega arith
Packed-weaken lo lo' hi ((h, d) ∷ m) l p = (omega (arith, p.0), p.1, p.2)

Packed-erase :
    (lo hi k : ℕ) (m : List (ℕ × HandleMetadata)) → Packed lo hi m → Packed lo hi (erase k m)
unfolding erase
Packed-erase lo hi k [] p = p
Packed-erase lo hi k ((h, d) ∷ m) p =
    ground (arith, Packed-erase d.end hi k m p.2, Packed-weaken d.end lo hi m)

-- A new handle above all others, with a block at the upper end.
Packed-insert :
    (gap klo k lo hi : ℕ) (d : HandleMetadata) (m : List (ℕ × HandleMetadata))
    → Keys (suc gap) klo k m
    → d.start ≡ hi
    → d.end ≡ d.start + d.size
    → Packed lo hi m
    → Packed lo (hi + d.size) (insert k d m)
unfolding insert
Packed-insert gap klo k lo hi d [] ks s e p = (omega arith, e, omega arith)
Packed-insert gap klo k lo hi d ((h, c) ∷ m) ks s e p = ground (
  arith,
  Keys-le (suc gap) (h + suc gap) k m ks.1,
  Packed-insert gap (h + suc gap) k c.end hi d m ks.1 s e p.2,
)

-- For a well-formed manager whose blocks follow one another, a call of AllocateHandle that
-- returns, for a size below 2 ^ 32 with room in the heap, leaves blocks that follow one
-- another, and so are disjoint, and moves the end of the heap by the size.
pub allocate_handle-IsPacked :
    (size : ℕ) (tag : String) (m m' : MemoryManager) (h : ℕ)
    → IsWellFormed m
    → IsPacked m
    → size < 2 ^ 32
    → m.heap_offset + size < heap_end
    → allocate_handle size tag m ≡ ok (h, m')
    → IsPacked m' × (m'.heap_offset ≡ m.heap_offset + size)
unfolding new_metadata
allocate_handle-IsPacked size tag m m' h w p s fits e =
    let grown = allocate_handle-IsWellFormed size tag m m' h w s e in
    let d : HandleMetadata = new_metadata tag (heap_start + m.heap_offset) size in
    let packed : IsPacked (allocated size tag m) =
      subst (λ hi. Packed (heap_start + heap_handle_offset) hi (insert (next_handle m) d m.handles))
        (sum m.heap_offset size)
        (Packed-insert 3 heap_start (next_handle m) (heap_start + heap_handle_offset)
          (heap_start + m.heap_offset) d m.handles w.keys refl (omega arith) p) in
    ground (arith, grown, packed)
  where
    sum : (a b : ℕ) → heap_start + a + b ≡ heap_start + (a + b)
    sum a b = omega arith

pub deallocate-IsPacked : (h : ℕ) (m : MemoryManager) → IsPacked m → IsPacked (deallocate h m).1
unfolding deallocate
deallocate-IsPacked h m p = ground (
  arith,
  Packed-erase (heap_start + heap_handle_offset) (heap_start + m.heap_offset) h m.handles p,
)

find_containing_lem :
    (lo hi a h : ℕ) (d : HandleMetadata) (m : List (ℕ × HandleMetadata))
    → Packed lo hi m
    → find h m ≡ some d
    → d.start ≤ a
    → a < d.end
    → (lo ≤ a) × (find_containing a m ≡ h)
unfolding find find_containing contains
find_containing_lem lo hi a h d [] p f l u = absurd (cc)
find_containing_lem lo hi a h d ((k, c) ∷ m) p f l u =
    ground (arith, find_containing_lem c.end hi a h d m p.2)

-- For blocks that follow one another, GetHandleThatContains answers for an address in the block
-- of a live handle with that handle.
pub get_handle_that_contains_lem :
    (m : MemoryManager) (h a : ℕ) (d : HandleMetadata)
    → IsPacked m
    → find h m.handles ≡ some d
    → d.start ≤ a
    → a < d.end
    → get_handle_that_contains a m ≡ h
unfolding get_handle_that_contains
get_handle_that_contains_lem m h a d p f l u = (find_containing_lem _ _ a h d m.handles p f l u).1

find_containing_ge :
    (gap lo hi a : ℕ) (m : List (ℕ × HandleMetadata))
    → Keys (suc gap) lo hi m
    → (find_containing a m ≡ 0) ⊎ (lo ≤ find_containing a m)
unfolding find_containing
find_containing_ge gap lo hi a [] ks = inl refl
find_containing_ge gap lo hi a ((k, c) ∷ m) ks =
    ground (arith, find_containing_ge gap (k + suc gap) hi a m ks.1)

find_containing_misses :
    (gap lo hi a h : ℕ) (d : HandleMetadata) (m : List (ℕ × HandleMetadata))
    → 0 < lo
    → Keys (suc gap) lo hi m
    → find h m ≡ some d
    → contains a d ≡ false
    → find_containing a m ≢ h
unfolding find find_containing
find_containing_misses gap lo hi a h d [] z ks f c = absurd (cc)
find_containing_misses gap lo hi a h d ((k, e) ∷ m) z ks f c = ground (
  arith,
  Keys-find (suc gap) (k + suc gap) hi h m ks.1,
  find_containing_ge gap (k + suc gap) hi a m ks.1,
  find_containing_misses gap (k + suc gap) hi a h d m,
)

-- After UpdateHandle of a live handle in a well-formed manager to an address at or past the old
-- end of its block, GetHandleThatContains gives that handle for no address.
pub update_handle_loses_block :
    (m m' : MemoryManager) (h a n x : ℕ) (d : HandleMetadata)
    → IsWellFormed m
    → find h m.handles ≡ some d
    → d.end ≤ a
    → update_handle h a n m ≡ ok m'
    → get_handle_that_contains x m' ≢ h
unfolding get_handle_that_contains contains
update_handle_loses_block m m' h a n x d w f past e = ground (
  arith,
  update_handle_lem h a n d m w f,
  find-assign h h moved d m.handles f,
  find_containing_misses 3 heap_start (next_handle m) x h moved (assign h moved m.handles)
      (omega arith) (Keys-assign 4 heap_start (next_handle m) h moved m.handles w.keys),
)
  where
    moved : HandleMetadata
    moved = record d { start = a; size = n }

-- A block that ends by the end of the heap lies between the handles and the stack.
pub allocate_within_heap :
    (size p : ℕ) (m m' : MemoryManager)
    → heap_handle_offset ≤ m.heap_offset
    → heap_start + m.heap_offset + size ≤ heap_end
    → allocate size m ≡ ok (p, m')
    → (heap_start + heap_handle_offset ≤ p)
      × (p + size ≤ heap_end)
      × (p + size ≡ heap_start + m'.heap_offset)
unfolding allocate check
allocate_within_heap size p m m' l fits e = ground arith

-- A block that ends past the end of the heap, with its offset from the start of the heap below
-- the end address, passes the CHECK of Allocate: the call returns a block that runs into the
-- stack.
pub allocate_past_heap_end :
    (size : ℕ) (m : MemoryManager)
    → heap_end < heap_start + m.heap_offset + size
    → m.heap_offset + size < heap_end
    → (p : ℕ) × (m' : MemoryManager) × (allocate size m ≡ ok (p, m')) × (heap_end < p + size)
unfolding allocate check
allocate_past_heap_end size m past fits = (
  heap_start + m.heap_offset,
  record m { heap_offset = m.heap_offset + size },
  ground arith,
  omega arith,
)
