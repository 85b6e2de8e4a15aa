-- ===== src/ControlPlane.antt =====
-- src/klnk/klnk-core/src/control_plane.rs: regions, page coherence states, remote nodes and locks.
-- A method takes the manager and returns the new one beside its result. Each map entry is locked
-- while a method works on it, so a method is one step.
pub mod Regions
pub mod Pages
pub mod Locks
mod Examples
use virthub.Common.{
  ℕ, zero, suc, ◌+◌, ◌/◌, Bool, true, false, not, Option, none, some, List, [], ◌∷◌, ◌++◌,
  if◌then◌else◌, ltb, ◌==◌, max, nat_eq, ◌||◌,
}
use virthub.Common.Word.{add64}
use virthub.Common.Map
use virthub.Common.Map.{Map}
use virthub.Common.Result.{Result, ok, err}
use virthub.Domain.{
  GlobalRegionId, region_id_eq, MemoryRegionDescriptor, PageCoherenceState, exclusive_write,
  DistributedPageEntry, new_with_metadata, RemoteEndpointInfo,
}

pub data ControlPlaneError : Type 0 where
  region_already_exists region_not_found : GlobalRegionId → ControlPlaneError
  address_not_mapped : GlobalRegionId → ℕ → ControlPlaneError
  lock_conflict lock_not_held : (resource_id client_pid : ℕ) → ControlPlaneError

pub record LockState : Type 0 where
  pub resource_id : ℕ
  pub current_owner_pid : Option ℕ
  pub waiting_pids : List ℕ

pub record ControlPlaneManager : Type 0 where
  pub local_node_id : ℕ
  pub regions : Map GlobalRegionId MemoryRegionDescriptor
  pub page_states : Map ℕ DistributedPageEntry
  pub remote_nodes : Map ℕ RemoteEndpointInfo
  pub locks : Map ℕ LockState

unfoldable pub new : ℕ → ControlPlaneManager
new local_node_id = record {
  local_node_id = local_node_id;
  regions = Map.empty;
  page_states = Map.empty;
  remote_nodes = Map.empty;
  locks = Map.empty;
}

-- A region as its page loops see it: bounds and unit size.
abbrev pub unit_size : MemoryRegionDescriptor → ℕ
unit_size d = max d.staging_page_size 4096

abbrev pub end_addr : MemoryRegionDescriptor → ℕ
end_addr d = add64 d.main_vaddr d.region_size

-- `while curr < end { page_states[curr] = value(curr); curr += step }`, where `none` removes the
-- entry. The address is a u64 and wraps; the result is `none` if the fuel runs out.
unfoldable pub set_units :
    ℕ
    → (curr end step : ℕ) → (ℕ → Option DistributedPageEntry)
    → Map ℕ DistributedPageEntry
    → Option (Map ℕ DistributedPageEntry)
set_units zero curr end step value m = if ltb curr end then none else some m
set_units (suc fuel) curr end step value m =
    let rest =
      set_units fuel (add64 curr step) end step value (λ a. if a == curr then value a else m a) in
    if ltb curr end then rest else some m

-- Rounds enough for a region whose addresses do not wrap.
abbrev pub rounds : MemoryRegionDescriptor → ℕ
rounds d = d.region_size / unit_size d + 1

unfoldable pub register_region_with_metadata :
    ControlPlaneManager
    → MemoryRegionDescriptor
    → List ℕ
    → Option (ControlPlaneManager × Result ControlPlaneError (Unit {0}))
unfolding set_units new_with_metadata
register_region_with_metadata c d metadata =
    if Map.contains_key c.regions d.region_id
    then some (c, err (region_already_exists d.region_id))
    else elim (set_units (rounds d) d.main_vaddr (end_addr d) (unit_size d)
        (λ a. some (new_with_metadata a (unit_size d) c.local_node_id metadata)) c.page_states) [
          | none ↦ none
          | some pages ↦ some (
            record c { page_states = pages; regions = Map.insert c.regions d.region_id d },
            ok tt,
          )
        ]

unfoldable pub register_region :
    ControlPlaneManager
    → MemoryRegionDescriptor
    → Option (ControlPlaneManager × Result ControlPlaneError (Unit {0}))
unfolding register_region_with_metadata
register_region c d = register_region_with_metadata c d []

unfoldable pub deregister_region :
    ControlPlaneManager
    → GlobalRegionId
    → Option (ControlPlaneManager × Result ControlPlaneError (Unit {0}))
unfolding set_units
deregister_region c region_id = elim (c.regions region_id) [
  | none ↦ some (c, err (region_not_found region_id))
  | some d ↦
      elim (set_units (rounds d) d.main_vaddr (end_addr d) (unit_size d) (λ a. none)
        c.page_states) [
          | none ↦ none
          | some pages ↦
              some
                (record c { page_states = pages; regions = Map.remove c.regions region_id }, ok tt)
        ]
]

unfoldable pub get_region :
    ControlPlaneManager → GlobalRegionId → Result ControlPlaneError MemoryRegionDescriptor
get_region c region_id = elim (c.regions region_id) [
  | none ↦ err (region_not_found region_id)
  | some d ↦ ok d
]

-- `get_mut` and a change of the entry in place; false on a missing key.
abbrev pub modify_page :
    ControlPlaneManager
    → ℕ
    → (DistributedPageEntry → DistributedPageEntry)
    → ControlPlaneManager × Bool
modify_page c page_vaddr f = elim (c.page_states page_vaddr) [
  | none ↦ (c, false)
  | some entry ↦ (record c { page_states = Map.insert c.page_states page_vaddr (f entry) }, true)
]

unfoldable pub is_exclusive : PageCoherenceState → Bool
is_exclusive exclusive_write = true
is_exclusive _ = false

-- The change that `update_page_state` makes to an entry; the version is a u64 and wraps.
unfoldable pub updated_entry : PageCoherenceState → ℕ → DistributedPageEntry → DistributedPageEntry
unfolding is_exclusive
updated_entry new_state owner entry =
    let moved = record entry { coherence_state = new_state; primary_owner = owner } in
    if is_exclusive new_state
    then record moved { version = add64 entry.version 1; replica_holders = [] }
    else moved

unfoldable pub update_page_state :
    ControlPlaneManager → ℕ → PageCoherenceState → ℕ → ControlPlaneManager × Bool
unfolding updated_entry
update_page_state c page_vaddr new_state owner =
    modify_page c page_vaddr (updated_entry new_state owner)

unfoldable pub contains : List ℕ → ℕ → Bool
contains [] n = false
contains (x ∷ xs) n = x == n || contains xs n

-- `retain(|&x| x != n)`
unfoldable pub retain_ne : ℕ → List ℕ → List ℕ
retain_ne n [] = []
retain_ne n (x ∷ xs) = if x == n then retain_ne n xs else x ∷ retain_ne n xs

unfoldable pub add_reader : ControlPlaneManager → ℕ → ℕ → ControlPlaneManager × Bool
unfolding contains
add_reader c page_vaddr reader_node = modify_page c page_vaddr λ entry.
    if contains entry.replica_holders reader_node
    then entry
    else record entry { replica_holders = entry.replica_holders ++ (reader_node ∷ []) }

unfoldable pub remove_reader : ControlPlaneManager → ℕ → ℕ → ControlPlaneManager × Bool
unfolding retain_ne
remove_reader c page_vaddr reader_node =
    modify_page c page_vaddr
      λ entry. record entry { replica_holders = retain_ne reader_node entry.replica_holders }

unfoldable pub set_page_metadata : ControlPlaneManager → ℕ → List ℕ → ControlPlaneManager × Bool
set_page_metadata c page_vaddr metadata =
    modify_page c page_vaddr λ entry. record entry { metadata = metadata }

unfoldable pub update_page_states_batch :
    ControlPlaneManager → List (ℕ × PageCoherenceState × ℕ) → ControlPlaneManager × List Bool
unfolding update_page_state
update_page_states_batch c [] = (c, [])
update_page_states_batch c ((addr, state, owner) ∷ us) =
    let (c', done) = update_page_state c addr state owner in
    let (c'', rest) = update_page_states_batch c' us in (c'', done ∷ rest)

unfoldable pub add_readers_batch :
    ControlPlaneManager → List (ℕ × ℕ) → ControlPlaneManager × List Bool
unfolding add_reader
add_readers_batch c [] = (c, [])
add_readers_batch c ((addr, node) ∷ us) =
    let (c', done) = add_reader c addr node in
    let (c'', rest) = add_readers_batch c' us in (c'', done ∷ rest)

unfoldable pub remove_readers_batch :
    ControlPlaneManager → List (ℕ × ℕ) → ControlPlaneManager × List Bool
unfolding remove_reader
remove_readers_batch c [] = (c, [])
remove_readers_batch c ((addr, node) ∷ us) =
    let (c', done) = remove_reader c addr node in
    let (c'', rest) = remove_readers_batch c' us in (c'', done ∷ rest)

unfoldable pub get_page_version : ControlPlaneManager → ℕ → Option ℕ
get_page_version c page_vaddr = elim (c.page_states page_vaddr) [
  | none ↦ none
  | some e ↦ some e.version
]

unfoldable pub get_readers : ControlPlaneManager → ℕ → Option (List ℕ)
get_readers c page_vaddr = elim (c.page_states page_vaddr) [
  | none ↦ none
  | some e ↦ some e.replica_holders
]

unfoldable pub get_page_metadata : ControlPlaneManager → ℕ → Option (List ℕ)
get_page_metadata c page_vaddr = elim (c.page_states page_vaddr) [
  | none ↦ none
  | some e ↦ some e.metadata
]

unfoldable pub register_remote_node : ControlPlaneManager → RemoteEndpointInfo → ControlPlaneManager
register_remote_node c info = record c {
  remote_nodes = Map.insert c.remote_nodes info.node_id info;
}

unfoldable pub remove_remote_node : ControlPlaneManager → ℕ → ControlPlaneManager
remove_remote_node c node_id = record c { remote_nodes = Map.remove c.remote_nodes node_id }

-- `entry(resource_id).or_insert_with(..)`
unfoldable pub lock_entry : ControlPlaneManager → ℕ → LockState
lock_entry c resource_id = elim (c.locks resource_id) [
  | none ↦ record { resource_id = resource_id; current_owner_pid = none; waiting_pids = [] }
  | some l ↦ l
]

-- The body of `acquire_lock` under the lock's write guard; true is `Ok`.
unfoldable pub acquire_state : LockState → ℕ → LockState × Bool
unfolding contains
acquire_state l client_pid = elim l.current_owner_pid [
  | none ↦ (record l { current_owner_pid = some client_pid }, true)
  | some owner ↦ if owner == client_pid then (l, true) else (
    if contains l.waiting_pids client_pid
        then l
        else record l { waiting_pids = l.waiting_pids ++ (client_pid ∷ []) },
    false,
  )
]

unfoldable pub acquire_lock :
    ControlPlaneManager
    → (resource_id client_pid : ℕ) → ControlPlaneManager × Result ControlPlaneError (Unit {0})
unfolding lock_entry acquire_state
acquire_lock c resource_id client_pid =
    let (l, done) = acquire_state (lock_entry c resource_id) client_pid in
    (
      record c { locks = Map.insert c.locks resource_id l },
      if done then ok tt else err (lock_conflict resource_id client_pid),
    )

-- The hand-over to the first waiter, or nobody.
unfoldable pub hand_over : LockState → List ℕ → LockState
hand_over l [] = record l { current_owner_pid = none }
hand_over l (next ∷ rest) = record l { current_owner_pid = some next; waiting_pids = rest }

unfoldable pub owns : Option ℕ → ℕ → Bool
owns none p = false
owns (some o) p = o == p

-- The body of `release_lock` under the lock's write guard.
unfoldable pub release_state : LockState → ℕ → LockState × Bool
unfolding hand_over owns
release_state l client_pid =
    if owns l.current_owner_pid client_pid then (hand_over l l.waiting_pids, true) else (l, false)

unfoldable pub release_lock :
    ControlPlaneManager
    → (resource_id client_pid : ℕ) → ControlPlaneManager × Result ControlPlaneError (Unit {0})
unfolding release_state
release_lock c resource_id client_pid = elim (c.locks resource_id) [
  | none ↦ (c, err (lock_not_held resource_id client_pid))
  | some l ↦
      let (l', done) = release_state l client_pid in
      (
        record c { locks = Map.insert c.locks resource_id l' },
        if done then ok tt else err (lock_not_held resource_id client_pid),
      )
]
