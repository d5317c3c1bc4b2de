-- ===== src/Resources/Cached.antt =====
-- A resource that is loaded has its handle for good.
use Prim.Native.String.{String}
use cyder.Base.{
  ℕ, ◌≡◌, refl, sym, ap, ap₂, ◌∙◌, Bool, true, ◌&&◌, List, none, some, ◌==◌, ==_iff, Bool-cases,
  Option-cases, inl, inr, arith, bind-ok, crash≢ok, must, ok, subst,
}
use cyder.Trap.Stack.{ok_inj}
use cyder.Memory.Region.{Store, write_uint}
use cyder.Memory.Manager.Defs.{MemoryManager, system_memory, allocate_handle_for_region}
use cyder.Resources.Defs.{Resource, find_by_type_and_name}
use cyder.Resources.Manager.{
  ResourceManager, with_handle, res_err, res_not_found, find_handle, find_in_files,
  load_into_handle, get_resource, get_resource_by_name,
}

-- The map has a handle for a type and an id.
abbrev pub HasHandle : ℕ → ℕ → ℕ → ResourceManager → Type 0
unfolding find_handle
HasHandle type_id id handle m = find_handle type_id id m.resource_to_handle ≡ some handle

module _ (unique_id : ℕ → ℕ → String) where
  cached_lem :
      (type_id id handle : ℕ) (m : ResourceManager)
      → HasHandle type_id id handle m
      → get_resource unique_id type_id id m ≡ ok (handle, m)
  unfolding get_resource
  cached_lem type_id id handle m h = rw (h, get_resource) refl

  key_here : (t i : ℕ) → (t == t) && (i == i) ≡ true
  key_here t i = ground arith

  load_past :
      (type_id id handle : ℕ) (resource : Resource) (from : Store) (m m' : ResourceManager)
      → load_into_handle unique_id type_id id resource from m ≡ ok (handle, m')
      → (loaded : ℕ × MemoryManager) × (allocate_handle_for_region resource.data' from
            (unique_id type_id id)
            m.memory_manager
          ≡ ok loaded)
        × (loaded.0 ≡ handle)
        × (with_handle type_id id loaded m ≡ m')
  unfolding load_into_handle
  load_past type_id id handle resource from m m' e =
      let past =
        bind-ok
          (allocate_handle_for_region resource.data' from (unique_id type_id id) m.memory_manager)
          (λ loaded. ok (loaded.0, with_handle type_id id loaded m)) (handle, m') e in
      let result = ok_inj past.2 in (past.0, past.1, ap (λ r. r.0) result, ap (λ r. r.1) result)

  two_true : (a b : Bool) → a && b ≡ true → (a ≡ true) × (b ≡ true)
  two_true a b h = ground arith

  none≢some : {h : ℕ} → none ≡ some h → ⊥
  none≢some e = ground (arith, e)

  -- What a load leaves in the map.
  load_finds :
      (type_id id handle : ℕ) (resource : Resource) (from : Store) (m m' : ResourceManager)
      → load_into_handle unique_id type_id id resource from m ≡ ok (handle, m')
      → HasHandle type_id id handle m'
  unfolding load_into_handle find_handle
  load_finds type_id id handle resource from m m' e =
      let past = load_past type_id id handle resource from m m' e in
      let now = with_handle type_id id past.0 m in
      let found : find_handle type_id id now.resource_to_handle ≡ some past.0.0 =
        rw (key_here type_id id) refl in
      subst (HasHandle type_id id handle) {x = now} {y = m'} past.3 (found ∙ ap some past.2)

  load_keeps :
      (type_id id t i h handle : ℕ) (resource : Resource) (from : Store) (m m' : ResourceManager)
      → load_into_handle unique_id type_id id resource from m ≡ ok (handle, m')
      → find_handle type_id id m.resource_to_handle ≡ none
      → HasHandle t i h m
      → HasHandle t i h m'
  unfolding load_into_handle find_handle
  load_keeps type_id id t i h handle resource from m m' e absent k =
      let past = load_past type_id id handle resource from m m' e in
      let now = with_handle type_id id past.0 m in
      let found : find_handle t i now.resource_to_handle ≡ some h =
        elim (Bool-cases ((type_id == t) && (id == i))) [
          | inl same ↦
              let both = two_true (type_id == t) (id == i) same in
              absurd (
                none≢some (
                  sym absent
                  ∙ ap₂ (λ a b. find_handle a b m.resource_to_handle) ((==_iff type_id t).0 both.0)
                      ((==_iff id i).0 both.1)
                  ∙ k))
          | inr other ↦ rw other k
        ] in
      subst (HasHandle t i h) {x = now} {y = m'} past.3 found

  -- What any call of GetResource or GetResourseByName leaves in the map.
  get_resource_keeps :
      (type_id id t i h handle : ℕ) (m m' : ResourceManager)
      → get_resource unique_id type_id id m ≡ ok (handle, m')
      → (HasHandle type_id id handle m') × (HasHandle t i h m → HasHandle t i h m')
  unfolding get_resource
  get_resource_keeps type_id id t i h handle m m' e =
      elim (Option-cases (find_handle type_id id m.resource_to_handle)) [
        | inl absent ↦ elim (Option-cases (find_in_files type_id id m)) [
          | inl missing ↦ absurd (crash≢ok (rw (get_resource, absent, missing) at e))
          | inr (found, f) ↦
              let load = rw (get_resource, absent, f) at e in
              (
                load_finds type_id id handle found.0 found.1 m m' load,
                load_keeps type_id id t i h handle found.0 found.1 m m' load absent,
              )
        ]
        | inr (cached, c) ↦
            let result = ok_inj (rw (get_resource, c) at e) in
            (
              subst (HasHandle type_id id handle) {x = m} {y = m'} (ap (λ r. r.1) result)
                  (c ∙ ap (λ r. some r.0) result),
              subst (HasHandle t i h) {x = m} {y = m'} (ap (λ r. r.1) result),
            )
      ]

  by_name_keeps :
      (type_id : ℕ) (name : List ℕ) (t i h handle : ℕ) (m m' : ResourceManager)
      → get_resource_by_name unique_id type_id name m ≡ ok (handle, m')
      → HasHandle t i h m
      → HasHandle t i h m'
  unfolding get_resource_by_name must
  by_name_keeps type_id name t i h handle m m' e k =
      elim (Option-cases (find_by_type_and_name type_id name m.resource_file)) [
        | inl missing ↦
            let past =
              bind-ok
                (must (write_uint 2 system_memory res_err res_not_found m.memory_manager.memory))
                (λ written.
                  ok
                    (0, record m { memory_manager = record m.memory_manager { memory = written } }))
                (handle, m') (rw (get_resource_by_name, missing) at e) in
            subst (HasHandle t i h)
              {x = record m { memory_manager = record m.memory_manager { memory = past.0 } }}
              {y = m'} (ap (λ r. r.1) (ok_inj past.2)) k
        | inr (resource, f) ↦
            elim (Option-cases (find_handle type_id resource.entry.id m.resource_to_handle)) [
              | inl absent ↦
                  load_keeps type_id resource.entry.id t i h handle resource m.resource_file.array m
                    m' (rw (get_resource_by_name, f, absent) at e) absent k
              | inr (cached, c) ↦
                  subst (HasHandle t i h) {x = m} {y = m'}
                    (ap (λ r. r.1) (ok_inj (rw (get_resource_by_name, f, c) at e))) k
            ]
      ]

  -- What calls of the two functions lead to.
  pub data Reaches (m : ResourceManager) : ResourceManager → Type 0 where
    start : Reaches m m
    gets :
        (type_id id handle : ℕ) (m1 m2 : ResourceManager)
        → Reaches m m1
        → get_resource unique_id type_id id m1 ≡ ok (handle, m2)
        → Reaches m m2
    gets_by_name :
        (type_id : ℕ) (name : List ℕ) (handle : ℕ) (m1 m2 : ResourceManager)
        → Reaches m m1
        → get_resource_by_name unique_id type_id name m1 ≡ ok (handle, m2)
        → Reaches m m2

  Reaches-keeps :
      (t i h : ℕ) (m m' : ResourceManager) → Reaches m m' → HasHandle t i h m → HasHandle t i h m'
  Reaches-keeps t i h m m' start k = k
  Reaches-keeps t i h m m' (gets type_id id handle m1 _ r e) k =
      (get_resource_keeps type_id id t i h handle m1 m' e).1 (Reaches-keeps t i h m m1 r k)
  Reaches-keeps t i h m m' (gets_by_name type_id name handle m1 _ r e) k =
      by_name_keeps type_id name t i h handle m1 m' e (Reaches-keeps t i h m m1 r k)

  -- Once GetResource has given a handle for a type and an id, it gives that handle, and changes
  -- nothing, after any sequence of calls of GetResource and GetResourseByName.
  pub get_resource_stays :
      (type_id id handle : ℕ) (m m1 m2 : ResourceManager)
      → get_resource unique_id type_id id m ≡ ok (handle, m1)
      → Reaches m1 m2
      → get_resource unique_id type_id id m2 ≡ ok (handle, m2)
  get_resource_stays type_id id handle m m1 m2 e r = cached_lem type_id id handle m2 (
      Reaches-keeps type_id id handle m1 m2 r
        ((get_resource_keeps type_id id type_id id handle handle m m1 e).0))
