-- ===== src/Resources/Loading.antt =====
-- What is loaded: the bytes of a resource in its block, and the entries of a group in order.
use Prim.Native.String.{String}
use cyder.Base.{
  ℕ, zero, suc, ◌+◌, ◌<◌, ◌≤◌, ◌^◌, ◌≡◌, refl, sym, ap, ◌∙◌, List, [], ◌∷◌, none, some, arith, ok,
  ◌>>=◌, length, bind-ok, subst,
}
use cyder.Trap.Stack.{ok_inj}
use cyder.Memory.Region.{MemoryRegion, Store}
use cyder.Memory.Manager.Defs.{MemoryManager, heap_start, heap_end, heap_handle_offset}
use cyder.Memory.Manager.Invariant.{IsWellFormed, next_handle}
use cyder.Memory.Manager.Copy.{HasBytes, allocate_handle_for_region_lem}
use cyder.Resources.Defs.{
  Resource, ResourceEntry, ResourceGroup, ResourceTypeItem, entry_size, read_resource_entry,
  load_resource, load_entries, load_group,
}
use cyder.Resources.Manager.{
  ResourceManager, find_handle, find_in_files, load_into_handle, get_resource,
}

-- A resource whose data can be copied into the heap.
pub record IsLoadable (resource : Resource) (from : Store) (m : MemoryManager) : Type 0 where
  pub within : resource.data'.size ≤ resource.data'.maximum_size
  pub small : resource.data'.size < 2 ^ 32
  pub array_small : resource.data'.maximum_size < 2 ^ 64
  pub bytes : HasBytes resource.data' from resource.data'.size
  pub room : m.heap_offset + resource.data'.size < heap_end
  pub slot : m.handle_offset < heap_handle_offset

-- GetResource of a resource that is in a file and has no handle yet, with a well-formed memory
-- manager that has room and a free handle for it, succeeds with the next handle; the manager is
-- well formed, and the bytes of the new block are those of the resource in the file.
pub get_resource_loads :
    (unique_id : ℕ → ℕ → String) (type_id id : ℕ) (resource : Resource) (from : Store)
    (m : ResourceManager)
    → IsWellFormed m.memory_manager
    → find_handle type_id id m.resource_to_handle ≡ none
    → find_in_files type_id id m ≡ some (resource, from)
    → IsLoadable resource from m.memory_manager
    → (m' : ResourceManager) × (get_resource unique_id type_id id m
        ≡ ok (next_handle m.memory_manager, m'))
      × IsWellFormed m'.memory_manager
      × ((j : ℕ)
          → j < resource.data'.size
          → m'.memory_manager.memory.bytes (heap_start + m.memory_manager.heap_offset + j)
            ≡ from.bytes (resource.data'.origin + j))
unfolding get_resource load_into_handle
get_resource_loads unique_id type_id id resource from m w absent found l =
    let loaded =
      allocate_handle_for_region_lem resource.data' from (unique_id type_id id) m.memory_manager w
        l.within l.small l.array_small l.bytes l.room l.slot in
    (
      record m {
        memory_manager = loaded.0;
        resource_to_handle = (type_id, id, next_handle m.memory_manager) ∷ m.resource_to_handle;
      },
      rw (get_resource, absent, found, loaded.1) refl,
      loaded.2,
      loaded.4,
    )

-- The entry that the i-th resource of a list was loaded for lies at the i-th place from one on.
abbrev pub InOrder : MemoryRegion → ℕ → List Resource → Store → Type 0
unfolding read_resource_entry
InOrder type_list offset [] file = Unit {0}
InOrder type_list offset (r ∷ rs) file =
    (read_resource_entry type_list offset file ≡ ok r.entry)
    × InOrder type_list (offset + entry_size) rs file

load_resource-entry :
    (names data_region : MemoryRegion) (entry : ResourceEntry) (file : Store) (r : Resource)
    → load_resource names data_region entry file ≡ ok r
    → r.entry ≡ entry
unfolding load_resource
load_resource-entry names data_region entry file r e = ground (arith, e)

load_entries_lem :
    (type_list names data_region : MemoryRegion) (offset left : ℕ) (file : Store)
    (rs : List Resource)
    → load_entries type_list names data_region offset left file ≡ ok rs
    → (length rs ≡ left) × InOrder type_list offset rs file
unfolding load_entries
load_entries_lem type_list names data_region offset zero file rs e =
    subst (λ l. (length l ≡ 0) × InOrder type_list offset l file) {x = []} {y = rs} (ok_inj e)
      (refl, tt)
load_entries_lem type_list names data_region offset (suc left) file rs e =
    let later = load_entries type_list names data_region (offset + entry_size) left file in
    let read =
      bind-ok (read_resource_entry type_list offset file)
        (λ (entry : ResourceEntry). load_resource names data_region entry file >>= λ resource.
          later >>= λ rest. ok (resource ∷ rest))
        rs e in
    let loaded =
      bind-ok (load_resource names data_region read.0 file)
        (λ (resource : Resource). later >>= λ rest. ok (resource ∷ rest)) rs read.2 in
    let more = bind-ok later (λ (rest : List Resource). ok (loaded.0 ∷ rest)) rs loaded.2 in
    let entry = load_resource-entry names data_region read.0 file loaded.0 loaded.1 in
    let rest =
      load_entries_lem type_list names data_region (offset + entry_size) left file more.0 more.1 in
    subst (λ l. (length l ≡ suc left) × InOrder type_list offset l file) {x = loaded.0 ∷ more.0}
      {y = rs} (ok_inj more.2) (ap suc rest.0, (read.1 ∙ ap ok (sym entry), rest.1))

-- A group that ResourceGroup::Load returns has one resource more than the count of its item
-- says, and their entries are those at the item's offset, one after another.
pub load_group-InOrder :
    (type_list names data_region : MemoryRegion) (item : ResourceTypeItem) (file : Store)
    (group : ResourceGroup)
    → load_group type_list names data_region item file ≡ ok group
    → (length group.resources ≡ suc item.count) × InOrder type_list item.offset group.resources file
unfolding load_group
load_group-InOrder type_list names data_region item file group e =
    let past =
      bind-ok (load_entries type_list names data_region item.offset (suc item.count) file)
        (λ (rs : List Resource). ok (made item rs)) group e in
    subst
      (λ (g : ResourceGroup).
        (length g.resources ≡ suc item.count) × InOrder type_list item.offset g.resources file)
      {x = made item past.0} {y = group} (ok_inj past.2)
      (load_entries_lem type_list names data_region item.offset (suc item.count) file past.0 past.1)
  where
    made : ResourceTypeItem → List Resource → ResourceGroup
    made item rs = record { type_item = item; resources = rs }
