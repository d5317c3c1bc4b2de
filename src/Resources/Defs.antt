-- ===== src/Resources/Defs.antt =====
-- The entries of a resource fork, its groups and the searches in them:
-- emu/rsrc/{resource,resource_group,resource_file}.cc. A name is its characters.
use cyder.Base.{
  ℕ, zero, suc, ◌+◌, ◌*◌, Bool, true, false, ◌&&◌, List, [], ◌∷◌, Option, none, some, ◌==◌,
  if◌then◌else◌, find_if, Status, ok, ◌>>=◌,
}
use cyder.Memory.Bytes.{read_bytes, host_value, betoh}
use cyder.Memory.Region.{MemoryRegion, Store, size_t, read_uint, read_raw, create, create_sized}

-- resource_types.tdef
pub record ResourceHeader : Type 0 where
  pub data_offset : ℕ
  pub map_offset : ℕ
  pub data_length : ℕ
  pub map_length : ℕ

pub record ResourceMapHeader : Type 0 where
  pub type_list_offset : ℕ
  pub name_list_offset : ℕ

pub record ResourceTypeItem : Type 0 where
  pub type_id : ℕ
  pub count : ℕ
  pub offset : ℕ

pub record ResourceEntry : Type 0 where
  pub id : ℕ
  pub name_offset : ℕ
  pub attributes : ℕ
  pub data_offset : ℕ
  pub handle : ℕ

-- The sizes of an item, of an entry, and of the copy of the file's header in the map.
abbrev pub item_size : ℕ
item_size = 8

abbrev pub entry_size : ℕ
entry_size = 12

-- CopyU24: three bytes, shifted up by one byte in a uint32_t and swapped.
unfoldable pub copy_u24 : MemoryRegion → ℕ → Store → Status ℕ
unfolding read_raw host_value betoh
copy_u24 region offset file = do
  got ← read_raw region offset 3 file
  ok (betoh 4 (host_value got.0 * 256))

unfoldable pub field : ℕ → MemoryRegion → ℕ → Store → Status ℕ
unfolding read_uint
field w region offset file = do got ← read_uint w region offset file; ok got.0

unfoldable pub read_resource_header : MemoryRegion → ℕ → Store → Status ResourceHeader
unfolding field
read_resource_header region offset file = do
  data_offset ← field 4 region offset file
  map_offset ← field 4 region (offset + 4) file
  data_length ← field 4 region (offset + 8) file
  map_length ← field 4 region (offset + 12) file
  ok record {
    data_offset = data_offset;
    map_offset = map_offset;
    data_length = data_length;
    map_length = map_length;
  }

-- The copy of the file's header and the other reserved fields are read, and not used.
unfoldable pub read_resource_map_header : MemoryRegion → ℕ → Store → Status ResourceMapHeader
unfolding field read_resource_header
read_resource_map_header region offset file = do
  file_header ← read_resource_header region offset file
  next_map_handle ← field 4 region (offset + 16) file
  file_ref_number ← field 2 region (offset + 20) file
  file_attributes ← field 2 region (offset + 22) file
  type_list_offset ← field 2 region (offset + 24) file
  name_list_offset ← field 2 region (offset + 26) file
  ok record { type_list_offset = type_list_offset; name_list_offset = name_list_offset }

unfoldable pub read_resource_type_item : MemoryRegion → ℕ → Store → Status ResourceTypeItem
unfolding field
read_resource_type_item region offset file = do
  type_id ← field 4 region offset file
  count ← field 2 region (offset + 4) file
  list_offset ← field 2 region (offset + 6) file
  ok record { type_id = type_id; count = count; offset = list_offset }

unfoldable pub read_resource_entry : MemoryRegion → ℕ → Store → Status ResourceEntry
unfolding field copy_u24
read_resource_entry region offset file = do
  id ← field 2 region offset file
  name_offset ← field 2 region (offset + 2) file
  attributes ← field 1 region (offset + 4) file
  data_offset ← copy_u24 region (offset + 5) file
  handle ← field 4 region (offset + 8) file
  ok record {
    id = id;
    name_offset = name_offset;
    attributes = attributes;
    data_offset = data_offset;
    handle = handle;
  }

-- ReadType<std::string>: the characters are read through the raw pointer.
unfoldable pub read_string : MemoryRegion → ℕ → Store → Status (List ℕ)
unfolding field
read_string region offset file = do
  length ← field 1 region offset file
  ok (read_bytes file.bytes (region.origin + offset + 1) length)

-- `data` is a window on the array of the file.
pub record Resource : Type 0 where
  pub entry : ResourceEntry
  pub data' : MemoryRegion
  pub name : List ℕ

-- Resource::Load. The size of the offset's sum is that of uint32_t and size_t.
unfoldable pub load_resource : MemoryRegion → MemoryRegion → ResourceEntry → Store → Status Resource
unfolding field create_sized read_string
load_resource name_list_region data_region entry file = do
  resource_size ← field 4 data_region entry.data_offset file
  resource_region ← create_sized data_region (entry.data_offset + 4) resource_size
  name ←
      (if entry.name_offset == 65535
        then ok []
        else read_string name_list_region entry.name_offset file)
  ok record { entry = entry; data' = resource_region; name = name }

pub record ResourceGroup : Type 0 where
  pub type_item : ResourceTypeItem
  pub resources : List Resource

-- The loop of ResourceGroup::Load for the entries that are left, from one on.
unfoldable pub load_entries :
    MemoryRegion → MemoryRegion → MemoryRegion → ℕ → ℕ → Store → Status (List Resource)
unfolding read_resource_entry load_resource
load_entries type_list name_list data_region offset zero file = ok []
load_entries type_list name_list data_region offset (suc left) file = do
  entry ← read_resource_entry type_list offset file
  resource ← load_resource name_list data_region entry file
  rest ← load_entries type_list name_list data_region (offset + entry_size) left file
  ok (resource ∷ rest)

-- The count of an item is one less than that of its entries.
unfoldable pub load_group :
    MemoryRegion → MemoryRegion → MemoryRegion → ResourceTypeItem → Store → Status ResourceGroup
unfolding load_entries
load_group type_list name_list data_region type_item file = do
  resources ←
      load_entries type_list name_list data_region type_item.offset (suc type_item.count) file
  ok record { type_item = type_item; resources = resources }

unfoldable pub load_groups :
    MemoryRegion → MemoryRegion → MemoryRegion → ℕ → ℕ → Store → Status (List ResourceGroup)
unfolding read_resource_type_item load_group
load_groups type_list name_list data_region offset zero file = ok []
load_groups type_list name_list data_region offset (suc left) file = do
  type_item ← read_resource_type_item type_list offset file
  group ← load_group type_list name_list data_region type_item file
  rest ← load_groups type_list name_list data_region (size_t (offset + item_size)) left file
  ok (group ∷ rest)

-- A file is its array and its groups.
pub record ResourceFile : Type 0 where
  pub array : Store
  pub resource_groups : List ResourceGroup

unfoldable pub load_rsrc_fork : MemoryRegion → Store → Status ResourceFile
unfolding read_resource_header read_resource_map_header create create_sized field load_groups
load_rsrc_fork region file = do
  file_header ← read_resource_header region 0 file
  map_header ← read_resource_map_header region file_header.map_offset file
  data_region ← create_sized region file_header.data_offset file_header.data_length
  map_region ← create_sized region file_header.map_offset file_header.map_length
  type_list_region ← create map_region map_header.type_list_offset
  name_list_region ← create map_region map_header.name_list_offset
  type_list_count ← field 2 type_list_region 0 file
  groups ← load_groups type_list_region name_list_region data_region 2 (suc type_list_count) file
  ok record { array = file; resource_groups = groups }

-- `==` of names.
unfoldable pub name_eq : List ℕ → List ℕ → Bool
name_eq [] [] = true
name_eq [] (b ∷ bs) = false
name_eq (a ∷ as') [] = false
name_eq (a ∷ as') (b ∷ bs) = (a == b) && name_eq as' bs

unfoldable pub find_by_id : ℕ → ResourceGroup → Option Resource
unfolding find_if
find_by_id id group = find_if (λ (r : Resource). r.entry.id == id) group.resources

unfoldable pub find_by_name : List ℕ → ResourceGroup → Option Resource
unfolding find_if name_eq
find_by_name name group = find_if (λ (r : Resource). name_eq r.name name) group.resources

-- FindGroupByType, and the two searches in the first group of a type.
unfoldable pub find_group_by_type : ℕ → ResourceFile → Option ResourceGroup
unfolding find_if
find_group_by_type type_id file =
    find_if (λ (g : ResourceGroup). g.type_item.type_id == type_id) file.resource_groups

unfoldable pub find_by_type_and_id : ℕ → ℕ → ResourceFile → Option Resource
unfolding find_group_by_type find_by_id
find_by_type_and_id type_id id file = elim (find_group_by_type type_id file) [
  | none ↦ none
  | some group ↦ find_by_id id group
]

unfoldable pub find_by_type_and_name : ℕ → List ℕ → ResourceFile → Option Resource
unfolding find_group_by_type find_by_name
find_by_type_and_name type_id name file = elim (find_group_by_type type_id file) [
  | none ↦ none
  | some group ↦ find_by_name name group
]
