-- ===== src/MrRegistry.antt =====
-- src/klnk/librmashim/src/mr_registry.rs: the registry of RDMA memory regions. Registering and
-- deregistering hold the write lock of the regions until both maps are changed, so each is one step.
-- `clear` locks the two maps one after the other, so it is two steps, between which other calls run. A lookup by range holds
-- the lock of the second index while it reads the region, so it is one step too.
pub mod Index
mod Examples
use virthub.Common.{
  ℕ, ◌+◌, ◌≡◌, ◌↔◌, Bool, true, false, ◌&&◌, ◌||◌, Option, none, some, if◌then◌else◌, leb, ◌==◌, Eq,
  nat_eq, arith,
}
use virthub.Common.Word.{add64}
use virthub.Common.Map
use virthub.Common.Map.{Map}
use virthub.Common.Result.{Result, ok, err}

pub data MemoryRegionError : Type 0 where
  not_found already_exists : (rkey : ℕ) → MemoryRegionError
  invalid_descriptor : MemoryRegionError

pub record MemoryRegion : Type 0 where
  pub rkey : ℕ
  pub lkey : ℕ
  pub vaddr : ℕ
  pub size : ℕ
  pub flags : ℕ
  pub node_id : ℕ

-- The key `(vaddr, size)` of the second index.
abbrev pub range_eq : ℕ × ℕ → ℕ × ℕ → Bool
range_eq a b = a.0 == b.0 && a.1 == b.1

pub range_eq_iff : (a b : ℕ × ℕ) → (range_eq a b ≡ true) ↔ (a ≡ b)
range_eq_iff a b = ground arith

instance abbrev pub range_key_eq : Eq (ℕ × ℕ)
range_key_eq = record { beq = range_eq; beq_iff = range_eq_iff }

pub record MemoryRegionRegistry : Type 0 where
  pub regions : Map ℕ MemoryRegion
  pub vaddr_index : Map (ℕ × ℕ) ℕ

unfoldable pub new : MemoryRegionRegistry
new = record { regions = Map.empty; vaddr_index = Map.empty }

unfoldable pub contains_range : MemoryRegion → ℕ → ℕ → Bool
contains_range r target_vaddr length =
    leb r.vaddr target_vaddr && leb (add64 target_vaddr length) (add64 r.vaddr r.size)

unfoldable pub register :
    MemoryRegionRegistry → MemoryRegion → MemoryRegionRegistry × Result MemoryRegionError (Unit {0})
register m region =
    if region.vaddr == 0 || region.size == 0
    then (m, err invalid_descriptor)
    else if Map.contains_key m.regions region.rkey
    then (m, err (already_exists region.rkey))
    else (
      record {
        regions = Map.insert m.regions region.rkey region;
        vaddr_index = Map.insert m.vaddr_index (region.vaddr, region.size) region.rkey;
      },
      ok tt,
    )

unfoldable pub register_region :
    MemoryRegionRegistry
    → (vaddr size rkey lkey flags node_id : ℕ)
    → MemoryRegionRegistry × Result MemoryRegionError MemoryRegion
unfolding register
register_region m vaddr size rkey lkey flags node_id =
    let mr : MemoryRegion = record {
      rkey = rkey;
      lkey = lkey;
      vaddr = vaddr;
      size = size;
      flags = flags;
      node_id = node_id;
    } in
    let (m', result) = register m mr in (m', elim result [ ok _ ↦ ok mr | err e ↦ err e ])

unfoldable pub get : MemoryRegionRegistry → ℕ → Option MemoryRegion
get m rkey = m.regions rkey

unfoldable pub get_by_vaddr_size : MemoryRegionRegistry → ℕ → ℕ → Option MemoryRegion
get_by_vaddr_size m vaddr size = elim (m.vaddr_index (vaddr, size)) [
  | none ↦ none
  | some rkey ↦ m.regions rkey
]

unfoldable pub deregister :
    MemoryRegionRegistry → ℕ → MemoryRegionRegistry × Result MemoryRegionError MemoryRegion
deregister m rkey = elim (m.regions rkey) [
  | none ↦ (m, err (not_found rkey))
  | some region ↦ (
    record {
      regions = Map.remove m.regions rkey;
      vaddr_index = Map.remove m.vaddr_index (region.vaddr, region.size);
    },
    ok region,
  )
]

-- The two steps of `clear`, each under the lock of its own map.
unfoldable pub clear_regions : MemoryRegionRegistry → MemoryRegionRegistry
clear_regions m = record m { regions = Map.empty }

unfoldable pub clear_index : MemoryRegionRegistry → MemoryRegionRegistry
clear_index m = record m { vaddr_index = Map.empty }

-- A call of `clear` with no other call between its steps.
unfoldable pub clear : MemoryRegionRegistry → MemoryRegionRegistry
unfolding clear_regions clear_index
clear m = clear_index (clear_regions m)

-- The steps that change the registry: whole calls, and the two halves of `clear`.
pub data Step : Type 0 where
  registers : MemoryRegion → Step
  deregisters : ℕ → Step
  clears_regions clears_index : Step

unfoldable pub step : MemoryRegionRegistry → Step → MemoryRegionRegistry
unfolding clear_regions clear_index
step m (registers r) = (register m r).0
step m (deregisters k) = (deregister m k).0
step m clears_regions = clear_regions m
step m clears_index = clear_index m
