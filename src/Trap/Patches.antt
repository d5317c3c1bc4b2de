-- ===== src/Trap/Patches.antt =====
-- The patches of TrapManager: SetTrapAddress and GetTrapAddress, and the traps that call them.
use cyder.Base.{
  ℕ, ◌+◌, ◌*◌, ◌%◌, ◌^◌, ◌≡◌, ◌≢◌, refl, ap, ◌∙◌, Bool, true, false, ◌&&◌, List, none, some, ◌==◌,
  ltb, leb, ok, crash, check, if◌then◌else◌, arith, Bool-cases, Option-cases, inl, inr,
}
use cyder.Memory.Manager.Table.{find, erase, find-insert, find-assign, find-erase, Keys}
use cyder.Trap.Word.{is_toolbox, extract_index, extract_system_index, extract_toolbox_index}
use cyder.Trap.TrapName
use cyder.Trap.Machine.{Machine}
use cyder.Trap.Dispatch.{
  trap_manager_exit_address, base_system_trap_address, base_toolbox_trap_address, get_trap_address,
  set_patch, set_trap_address, internal_dispatch,
}

-- The address of a trap's native function.
abbrev pub native_address : ℕ → ℕ
native_address trap =
    if is_toolbox trap
    then base_toolbox_trap_address + (trap % 2 ^ 10) * 2
    else base_system_trap_address + (trap % 2 ^ 8) * 2

-- An address among those of the native functions.
abbrev pub is_native : ℕ → Bool
is_native address = leb base_toolbox_trap_address address && ltb address trap_manager_exit_address

find-set_patch :
    (k j v : ℕ) (patches : List (ℕ × ℕ))
    → find j (set_patch k v patches) ≡ (if k == j then some v else find j patches)
unfolding set_patch
find-set_patch k j v patches = elim (Option-cases (find k patches)) [
  | inl absent ↦ rw (absent, set_patch) (find-insert k j v patches absent)
  | inr present ↦ rw (present.1, set_patch) (find-assign k j v present.0 patches present.1)
]

-- A native function's address is among the native ones.
native_address-is_native : (trap : ℕ) → is_native (native_address trap) ≡ true
native_address-is_native trap = elim (Bool-cases (is_toolbox trap)) [
  | inl toolbox ↦ rw toolbox (ground arith)
  | inr system ↦ rw system (ground arith)
]

ne_of_same :
    (trap other : ℕ)
    → (trap == other) ≡ true
    → trap ≢ TrapName.unimplemented
    → (other == TrapName.unimplemented) ≡ false
ne_of_same trap other h n = ground (arith, h, n)

native_lem :
    (trap : ℕ)
    → (if is_toolbox trap
        then base_toolbox_trap_address + extract_index trap * 2
        else base_system_trap_address + extract_index trap * 2)
      ≡ native_address trap
unfolding extract_index extract_toolbox_index extract_system_index
native_lem trap = elim (Bool-cases (is_toolbox trap)) [
  | inl toolbox ↦ rw toolbox refl
  | inr system ↦ rw system refl
]

-- Lookups in a table that differs at one trap.
patched_address :
    (trap other address : ℕ) (patches : List (ℕ × ℕ)) (m : Machine)
    → trap ≢ TrapName.unimplemented
    → find other patches
      ≡ (if trap == other then some address else find other m.patch_trap_addresses)
    → get_trap_address other (record m { patch_trap_addresses = patches })
      ≡ (if trap == other then address else get_trap_address other m)
unfolding get_trap_address
patched_address trap other address patches m n h = elim (Bool-cases (trap == other)) [
  | inl same ↦ rw (h, same) (rw (ne_of_same trap other same n) refl)
  | inr differs ↦ rw (h, differs) refl
]

unpatched_address :
    (trap other : ℕ) (patches : List (ℕ × ℕ)) (m : Machine)
    → trap ≢ TrapName.unimplemented
    → find other patches ≡ (if trap == other then none else find other m.patch_trap_addresses)
    → get_trap_address other (record m { patch_trap_addresses = patches })
      ≡ (if trap == other then native_address other else get_trap_address other m)
unfolding get_trap_address extract_index extract_toolbox_index extract_system_index
unpatched_address trap other patches m n h = elim (Bool-cases (trap == other)) [
  | inl same ↦ rw (h, same, ne_of_same trap other same n) (native_lem other)
  | inr differs ↦ rw (h, differs) refl
]

bare_index-is_system : (i : ℕ) → is_toolbox (i % 2 ^ 10) ≡ false
unfolding is_toolbox
bare_index-is_system i = ground arith

bare_index_named : (i : ℕ) → (i % 2 ^ 10 == TrapName.unimplemented) ≡ false
bare_index_named i = ground arith

index_of_word : (d : ℕ) → extract_toolbox_index (d % 2 ^ 16) ≡ d % 2 ^ 10
unfolding extract_toolbox_index
index_of_word d = omega arith

index_of_index : (d : ℕ) → extract_system_index (d % 2 ^ 10) ≡ d % 2 ^ 8
unfolding extract_system_index
index_of_index d = omega arith

system_address :
    (d : ℕ) (m : Machine)
    → find (d % 2 ^ 10) m.patch_trap_addresses ≡ none
    → get_trap_address (d % 2 ^ 10) m ≡ base_system_trap_address + (d % 2 ^ 8) * 2
unfolding get_trap_address extract_index
system_address d m h =
    rw (bare_index_named d, h, bare_index-is_system d)
      (ap (λ i. base_system_trap_address + i * 2) (index_of_index d))

-- SetTrapAddress of a trap that has a name and is other than Unimplemented, to an address that
-- is not a native function's, succeeds; GetTrapAddress then gives that address for the trap,
-- and for every other trap what it gave before.
pub get_trap_address-set_trap_address :
    (has_name : ℕ → Bool) (trap other address : ℕ) (m : Machine)
    → has_name trap ≡ true
    → is_native address ≡ false
    → trap ≢ TrapName.unimplemented
    → (m' : Machine) × (set_trap_address has_name trap address m ≡ ok m')
      × (get_trap_address other m' ≡ (if trap == other then address else get_trap_address other m))
unfolding set_trap_address check
get_trap_address-set_trap_address has_name trap other address m named h n = (
  record m { patch_trap_addresses = set_patch trap address m.patch_trap_addresses },
  rw (h, named) refl,
  patched_address trap other address _ m n
      (find-set_patch trap other address m.patch_trap_addresses),
)

-- SetTrapAddress of a trap that has no name, to an address that is not a native function's, ends
-- the process.
set_trap_address_unnamed :
    (has_name : ℕ → Bool) (trap address : ℕ) (m : Machine)
    → has_name trap ≡ false
    → is_native address ≡ false
    → set_trap_address has_name trap address m ≡ crash
unfolding set_trap_address check
set_trap_address_unnamed has_name trap address m unnamed h = rw (h, unnamed) refl

-- For a table of patches in order, SetTrapAddress of a trap other than Unimplemented to the
-- address of any native function takes its patch away: GetTrapAddress gives the trap's own
-- native address for it, and for every other trap what it gave before.
set_trap_address_unpatches :
    (has_name : ℕ → Bool) (lo hi trap other address : ℕ) (m : Machine)
    → Keys 1 lo hi m.patch_trap_addresses
    → is_native address ≡ true
    → trap ≢ TrapName.unimplemented
    → (m' : Machine) × (set_trap_address has_name trap address m ≡ ok m')
      × (get_trap_address other m'
          ≡ (if trap == other then native_address other else get_trap_address other m))
unfolding set_trap_address erase
set_trap_address_unpatches has_name lo hi trap other address m k h n = (
  record m { patch_trap_addresses = erase trap m.patch_trap_addresses },
  rw h refl,
  unpatched_address trap other _ m n (find-erase 0 lo hi trap other m.patch_trap_addresses k),
)

-- GetToolBoxTrapAddress looks up the bare index, in which the toolbox bit is clear: with no
-- patch under that number A0 is a system trap's native address, whatever toolbox trap D0 names.
pub get_tool_box_trap_address_gives_system :
    (has_name : ℕ → Bool) (m : Machine)
    → find (m.d0 % 2 ^ 10) m.patch_trap_addresses ≡ none
    → internal_dispatch has_name TrapName.get_tool_box_trap_address m
      ≡ ok (some (record m { a0 = base_system_trap_address + (m.d0 % 2 ^ 8) * 2 }))
unfolding internal_dispatch
get_tool_box_trap_address_gives_system has_name m h =
    ap (λ (a : ℕ). ok (some (record m { a0 = a })))
      (ap (λ i. get_trap_address i m) (index_of_word m.d0) ∙ system_address m.d0 m h)
