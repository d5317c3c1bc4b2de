-- ===== src/Memory/Manager/Invariant.antt =====
-- The invariant of the handle table, and the operations under it. It says that the handles are
-- distinct words below the next free one, that each word holds the start of its block, and that
-- the offsets keep to their ranges.
use Prim.Native.String.{String}
use cyder.Base.{
  ℕ, ◌+◌, ◌%◌, ◌^◌, ◌≤◌, ◌<◌, ◌≡◌, ◌∙◌, ◌⊎◌, inl, inr, ◌&&◌, List, [], ◌∷◌, some, arith, ltb, ◌==◌,
  ==_iff, if◌then◌else◌, Bool-cases, ok, crash, check,
}
use cyder.Memory.Region.{Store}
use cyder.Memory.Manager.Table.{
  find, insert, erase, assign, Keys, Keys-le, Keys-find, Keys-insert, Keys-erase, Keys-assign,
}
use cyder.Memory.Manager.Cells.{
  cell, stored, read_word_lem, write_word_lem, cell-stored_self, cell-stored_ne,
}
use cyder.Memory.Manager.Defs.{
  MemoryManager, HandleMetadata, heap_start, heap_end, heap_handle_offset, initial, allocate,
  allocate_handle, new_metadata, deallocate, entry, get_ptr_for_handle, update_handle,
  recover_handle,
}

-- Each handle's word holds the start of its block.
abbrev pub Live : (ℕ → ℕ) → List (ℕ × HandleMetadata) → Type 0
Live bytes [] = Unit {0}
Live bytes ((h, d) ∷ m) = (cell bytes h ≡ d.start) × Live bytes m

abbrev pub next_handle : MemoryManager → ℕ
next_handle m = heap_start + m.handle_offset

pub record IsWellFormed (m : MemoryManager) : Type 0 where
  pub keys : Keys 4 heap_start (next_handle m) m.handles
  pub live : Live m.memory.bytes m.handles
  pub handles_fit : m.handle_offset ≤ heap_handle_offset
  pub aligned : m.handle_offset % 4 ≡ 0
  pub blocks_after : heap_handle_offset ≤ m.heap_offset
  pub blocks_fit : m.heap_offset < heap_end

Live-frame :
    (lo hi a v : ℕ) (s : Store) (m : List (ℕ × HandleMetadata))
    → Keys 4 lo hi m
    → (a + 4 ≤ lo) ⊎ (hi ≤ a)
    → Live s.bytes m
    → Live (stored a v s).bytes m
Live-frame lo hi a v s [] k out l = tt
Live-frame lo hi a v s ((h, d) ∷ m) k out l =
    let end_le : h + 4 ≤ hi = Keys-le 4 (h + 4) hi m k.1 in
    (
      cell-stored_ne a h v s (omega (arith, end_le, k.0)) ∙ l.0,
      Live-frame (h + 4) hi a v s m k.1 (omega (arith, k.0)) l.1,
    )

Live-insert :
    (bytes : ℕ → ℕ) (k : ℕ) (d : HandleMetadata) (m : List (ℕ × HandleMetadata))
    → cell bytes k ≡ d.start
    → Live bytes m
    → Live bytes (insert k d m)
unfolding insert
Live-insert bytes k d [] c l = (c, tt)
Live-insert bytes k d ((h, e) ∷ m) c l = ground (arith, Live-insert bytes k d m c l.1)

Live-erase :
    (bytes : ℕ → ℕ) (k : ℕ) (m : List (ℕ × HandleMetadata)) → Live bytes m → Live bytes (erase k m)
unfolding erase
Live-erase bytes k [] l = l
Live-erase bytes k ((h, e) ∷ m) l = ground (arith, Live-erase bytes k m l.1)

-- A new pointer for one handle: its word is written, and the others are left alone.
Live-assign :
    (lo hi k : ℕ) (s : Store) (d e : HandleMetadata) (m : List (ℕ × HandleMetadata))
    → Keys 4 lo hi m
    → find k m ≡ some e
    → d.start < 2 ^ 32
    → Live s.bytes m
    → Live (stored k d.start s).bytes (assign k d m)
unfolding find assign
Live-assign lo hi k s d e [] ks f w l = tt
Live-assign lo hi k s d e ((h, c) ∷ m) ks f w l = elim (Bool-cases (h == k)) [
  | inl hit ↦
      let same : h ≡ k = (==_iff h k).0 hit in
      rw hit (
        rw same (cell-stored_self k d.start s w),
        Live-frame (h + 4) hi k d.start s m ks.1 (omega arith) l.1,
      )
  | inr miss ↦
      let later : find k m ≡ some e = rw miss at f in
      let past : h + 4 ≤ k = ground (arith, Keys-find 4 (h + 4) hi k m ks.1) in
      rw miss (
        cell-stored_ne k h d.start s (inl past) ∙ l.0,
        Live-assign (h + 4) hi k s d e m ks.1 later w l.1,
      )
]

Live-find :
    (bytes : ℕ → ℕ) (k : ℕ) (d : HandleMetadata) (m : List (ℕ × HandleMetadata))
    → find k m ≡ some d
    → Live bytes m
    → cell bytes k ≡ d.start
unfolding find
Live-find bytes k d [] f l = absurd (cc)
Live-find bytes k d ((h, e) ∷ m) f l = ground (arith, Live-find bytes k d m)

find_bound :
    (lo hi k : ℕ) (d : HandleMetadata) (m : List (ℕ × HandleMetadata))
    → Keys 4 lo hi m
    → find k m ≡ some d
    → (lo ≤ k) × (k + 4 ≤ hi)
unfolding find
find_bound lo hi k d [] ks f = absurd (cc)
find_bound lo hi k d ((h, e) ∷ m) ks f =
    ground (arith, Keys-le 4 (h + 4) hi m ks.1, find_bound (h + 4) hi k d m ks.1)

pub initial-IsWellFormed : (s : Store) → IsWellFormed (initial s)
unfolding initial
initial-IsWellFormed s = omega arith

-- The manager after AllocateHandle.
abbrev pub allocated : ℕ → String → MemoryManager → MemoryManager
allocated size tag m = record {
  heap_offset = m.heap_offset + size;
  handle_offset = m.handle_offset + 4;
  handles = insert (next_handle m) (new_metadata tag (heap_start + m.heap_offset) size) m.handles;
  memory = stored (next_handle m) (heap_start + m.heap_offset) m.memory;
}

-- AllocateHandle succeeds exactly when both CHECKs pass, and this is what it does then.
pub allocate_handle_lem :
    (size : ℕ) (tag : String) (m : MemoryManager)
    → IsWellFormed m
    → size < 2 ^ 32
    → allocate_handle size tag m ≡ (
        if ltb (m.heap_offset + size) heap_end && ltb m.handle_offset heap_handle_offset
        then ok (next_handle m, allocated size tag m)
        else crash)
unfolding allocate_handle allocate check
allocate_handle_lem size tag m w s = ground (
  arith,
  write_word_lem
      (record m { heap_offset = m.heap_offset + size; handle_offset = m.handle_offset + 4 })
      (next_handle m) (heap_start + m.heap_offset),
)

pub allocated-IsWellFormed :
    (size : ℕ) (tag : String) (m : MemoryManager)
    → IsWellFormed m
    → m.heap_offset + size < heap_end
    → m.handle_offset < heap_handle_offset
    → IsWellFormed (allocated size tag m)
unfolding new_metadata
allocated-IsWellFormed size tag m w fits room = record {
  keys =
      rw (sum (m.handle_offset)) at (Keys-insert 3 heap_start (next_handle m) d m.handles w.keys);
  live =
      Live-insert bytes' (next_handle m) d m.handles
        (cell-stored_self (next_handle m) (heap_start + m.heap_offset) m.memory
          (omega (arith, w.blocks_fit)))
        (Live-frame heap_start (next_handle m) (next_handle m) _ m.memory m.handles w.keys
          (inr (omega arith)) w.live);
  handles_fit = omega (arith, w.aligned);
  aligned = omega (arith, w.aligned);
  blocks_after = omega (arith, w.blocks_after);
  blocks_fit = fits;
}
  where
    d : HandleMetadata
    d = new_metadata tag (heap_start + m.heap_offset) size

    bytes' : ℕ → ℕ
    bytes' = (stored (next_handle m) (heap_start + m.heap_offset) m.memory).bytes

    sum : (n : ℕ) → heap_start + n + 4 ≡ heap_start + (n + 4)
    sum n = omega arith

-- From a well-formed manager, a call of AllocateHandle for a size below 2 ^ 32 that returns
-- leaves a well-formed manager, gives the next free handle, and has done no more than to write
-- its word, note its block and move both offsets.
pub allocate_handle-IsWellFormed :
    (size : ℕ) (tag : String) (m m' : MemoryManager) (h : ℕ)
    → IsWellFormed m
    → size < 2 ^ 32
    → allocate_handle size tag m ≡ ok (h, m')
    → IsWellFormed m' × (h ≡ next_handle m) × (m' ≡ allocated size tag m)
allocate_handle-IsWellFormed size tag m m' h w s e =
    ground (arith, allocate_handle_lem size tag m w s, allocated-IsWellFormed size tag m w)

pub allocate-IsWellFormed :
    (size p : ℕ) (m m' : MemoryManager)
    → IsWellFormed m
    → size < 2 ^ 32
    → allocate size m ≡ ok (p, m')
    → IsWellFormed m'
unfolding allocate check
allocate-IsWellFormed size p m m' w s e = ground arith

-- Deallocate of any handle, live or not, keeps the manager well formed.
deallocate-IsWellFormed :
    (h : ℕ) (m : MemoryManager) → IsWellFormed m → IsWellFormed (deallocate h m).1
unfolding deallocate
deallocate-IsWellFormed h m w = ground (
  arith,
  Keys-erase 4 heap_start (next_handle m) h m.handles w.keys,
  Live-erase m.memory.bytes h m.handles w.live,
)

-- In a well-formed manager, GetPtrForHandle of a live handle returns, with its CHECKs passed,
-- the start of the handle's block.
get_ptr_for_handle_lem :
    (h : ℕ) (d : HandleMetadata) (m : MemoryManager)
    → IsWellFormed m
    → find h m.handles ≡ some d
    → get_ptr_for_handle h m ≡ ok d.start
unfolding get_ptr_for_handle entry check
get_ptr_for_handle_lem h d m w f = ground (
  arith,
  find_bound heap_start (next_handle m) h d m.handles w.keys f,
  read_word_lem m h,
  Live-find m.memory.bytes h d m.handles f w.live,
)

pub update_handle_lem :
    (h a n : ℕ) (d : HandleMetadata) (m : MemoryManager)
    → IsWellFormed m
    → find h m.handles ≡ some d
    → update_handle h a n m
      ≡ ok (record m {
        handles = assign h (record d { start = a; size = n }) m.handles;
        memory = stored h a m.memory;
      })
unfolding update_handle entry
update_handle_lem h a n d m w f =
    ground
      (arith, find_bound heap_start (next_handle m) h d m.handles w.keys f, write_word_lem m h a)

-- UpdateHandle of a live handle, to an address below 2 ^ 32, that returns keeps the manager
-- well formed: the handle's word and its entry move together.
update_handle-IsWellFormed :
    (h a n : ℕ) (d : HandleMetadata) (m m' : MemoryManager)
    → IsWellFormed m
    → a < 2 ^ 32
    → find h m.handles ≡ some d
    → update_handle h a n m ≡ ok m'
    → IsWellFormed m'
update_handle-IsWellFormed h a n d m m' w s f e =
    let moved : HandleMetadata = record d { start = a; size = n } in
    ground (
      arith,
      update_handle_lem h a n d m w f,
      Keys-assign 4 heap_start (next_handle m) h moved m.handles w.keys,
      Live-assign heap_start (next_handle m) h m.memory moved d m.handles w.keys f s w.live,
    )

Keys-extend :
    (lo hi hi' : ℕ) (m : List (ℕ × HandleMetadata)) → hi ≤ hi' → Keys 4 lo hi m → Keys 4 lo hi' m
Keys-extend lo hi hi' [] l k = omega arith
Keys-extend lo hi hi' ((h, d) ∷ m) l k = (k.0, Keys-extend (h + 4) hi hi' m l k.1)

-- With a handle left, RecoverHandle that returns keeps the manager well formed.
pub recover_handle-IsWellFormed :
    (p h : ℕ) (m m' : MemoryManager)
    → IsWellFormed m
    → m.handle_offset < heap_handle_offset
    → recover_handle p m ≡ ok (h, m')
    → IsWellFormed m'
unfolding recover_handle
recover_handle-IsWellFormed p h m m' w room e = ground (
  arith,
  write_word_lem m (next_handle m) p,
  Keys-extend heap_start (next_handle m) (heap_start + (m.handle_offset + 4)) m.handles,
  Live-frame heap_start (next_handle m) (next_handle m) p m.memory m.handles w.keys
      (inr (omega arith)) w.live,
)
