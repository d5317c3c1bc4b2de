-- ===== src/Resources/Manager.antt =====
-- ResourceManager: emu/rsrc/resource_manager.cc. The text that stands for a type and an id is an
-- argument; it determines both, so that the map of handles is keyed by the pair.
use Prim.Native.String.{String}
use cyder.Base.{
  ℕ, ◌-◌, ◌^◌, ◌&&◌, List, [], ◌∷◌, ◌++◌, map, Option, none, some, ◌==◌, if◌then◌else◌, Status, ok,
  crash, ◌>>=◌, must,
}
use cyder.Memory.Region.{Store, write_uint}
use cyder.Memory.Manager.Defs.{MemoryManager, system_memory, allocate_handle_for_region}
use cyder.Resources.Defs.{
  Resource, ResourceFile, find_group_by_type, find_by_type_and_id, find_by_type_and_name,
}

-- GlobalVars::ResErr, and the error of a resource that is not found.
abbrev pub res_err : ℕ
res_err = 0xA60

abbrev pub res_not_found : ℕ
res_not_found = 2 ^ 16 - 192

pub record ResourceManager : Type 0 where
  pub memory_manager : MemoryManager
  pub resource_file : ResourceFile
  pub system_file : Option ResourceFile
  pub resource_to_handle : List (ℕ × ℕ × ℕ)

-- `find` in the map from unique ids to handles.
unfoldable pub find_handle : ℕ → ℕ → List (ℕ × ℕ × ℕ) → Option ℕ
find_handle type_id id [] = none
find_handle type_id id ((t, i, handle) ∷ rest) =
    if (t == type_id) && (i == id) then some handle else find_handle type_id id rest

-- The application's file is searched, and then the system's, if there is one.
unfoldable pub find_in_files : ℕ → ℕ → ResourceManager → Option (Resource × Store)
unfolding find_by_type_and_id
find_in_files type_id id m = elim (find_by_type_and_id type_id id m.resource_file) [
  | some resource ↦ some (resource, m.resource_file.array)
  | none ↦ elim m.system_file [
    | none ↦ none
    | some file ↦ elim (find_by_type_and_id type_id id file) [
      | some resource ↦ some (resource, file.array)
      | none ↦ none
    ]
  ]
]

unfoldable pub get_segment_zero : ResourceManager → Option Resource
unfolding find_by_type_and_id
get_segment_zero m = find_by_type_and_id 0x434F4445 0 m.resource_file

-- `resource_to_handle_[unique_id] = handle`, after the load.
abbrev pub with_handle : ℕ → ℕ → ℕ × MemoryManager → ResourceManager → ResourceManager
with_handle type_id id loaded m = record m {
  memory_manager = loaded.1;
  resource_to_handle = (type_id, id, loaded.0) ∷ m.resource_to_handle;
}

module _ (unique_id : ℕ → ℕ → String) where
  -- The resource is copied into a new handle, which the map keeps.
  unfoldable pub load_into_handle :
      ℕ → ℕ → Resource → Store → ResourceManager → Status (ℕ × ResourceManager)
  unfolding allocate_handle_for_region
  load_into_handle type_id id resource from m = do
    loaded ← allocate_handle_for_region resource.data' from (unique_id type_id id) m.memory_manager
    ok (loaded.0, with_handle type_id id loaded m)

  unfoldable pub get_resource : ℕ → ℕ → ResourceManager → Status (ℕ × ResourceManager)
  unfolding find_handle find_in_files load_into_handle
  get_resource type_id id m = elim (find_handle type_id id m.resource_to_handle) [
    | some handle ↦ ok (handle, m)
    | none ↦ elim (find_in_files type_id id m) [
      | none ↦ crash
      | some (resource, from) ↦ load_into_handle type_id id resource from m
    ]
  ]

  -- GetResourseByName: only the application's file is searched.
  unfoldable pub get_resource_by_name : ℕ → List ℕ → ResourceManager → Status (ℕ × ResourceManager)
  unfolding find_handle find_by_type_and_name load_into_handle
  get_resource_by_name type_id name m = elim (find_by_type_and_name type_id name m.resource_file) [
    | none ↦ do
      written ← must (write_uint 2 system_memory res_err res_not_found m.memory_manager.memory)
      ok (0, record m { memory_manager = record m.memory_manager { memory = written } })
    | some resource ↦ elim (find_handle type_id resource.entry.id m.resource_to_handle) [
      | some handle ↦ ok (handle, m)
      | none ↦ load_into_handle type_id resource.entry.id resource m.resource_file.array m
    ]
  ]

-- GetIdsForType, for one file and for both.
unfoldable pub ids_in_file : ℕ → ResourceFile → List (ℕ × List ℕ)
unfolding find_group_by_type
ids_in_file type_id file = elim (find_group_by_type type_id file) [
  | none ↦ []
  | some group ↦ map (λ (r : Resource). (r.entry.id, r.name)) group.resources
]

unfoldable pub get_ids_for_type : ℕ → ResourceManager → List (ℕ × List ℕ)
unfolding ids_in_file
get_ids_for_type type_id m =
    ids_in_file type_id m.resource_file
    ++ (elim m.system_file [ none ↦ [] | some file ↦ ids_in_file type_id file ])
