-- ===== src/ControlPlane/Regions.antt =====
-- Regions of src/klnk/klnk-core/src/control_plane.rs and the page entries that come with them.
use virthub.Common.{
  ℕ, zero, suc, ◌+◌, ◌*◌, ◌/◌, ◌≡◌, ◌<◌, ◌≤◌, ap, ap₂, ◌∙◌, fun_ext, Bool, true, Option, none, some,
  List, if◌then◌else◌, ltb, ◌==◌, arith, Bool-cases, inl, inr,
}
use native.Mathlib.Nat.{suc-mul, lt-div-mul-add}
use virthub.Common.Steps.{is_unit, is_unit_next}
use virthub.Common.Map
use virthub.Common.Map.{Map}
use virthub.Common.Word.{add64, u64_mod}
use virthub.Common.Result.{ok, err}
use virthub.Domain.{
  MemoryRegionDescriptor, DistributedPageEntry, new_with_metadata, region_id_eq, region_eq_iff,
}
use virthub.ControlPlane.{
  ControlPlaneManager, unit_size, end_addr, set_units, rounds, register_region_with_metadata,
  deregister_region, region_already_exists,
}

-- What the loop does to a map.
abbrev pub with_units :
    (curr end step : ℕ)
    → (ℕ → Option DistributedPageEntry)
    → Map ℕ DistributedPageEntry
    → Map ℕ DistributedPageEntry
with_units curr end step value m a = if is_unit curr end step a then value a else m a

if_true : {A : Type 0} {b : Bool} {x y : A} (z : A) → b ≡ true → x ≡ y → (if b then x else z) ≡ y
if_true z h e = rw h e

no_units :
    (curr end step : ℕ) (value : ℕ → Option DistributedPageEntry) (m : Map ℕ DistributedPageEntry)
    → end ≤ curr
    → m ≡ with_units curr end step value m
no_units curr end step value m h = fun_ext λ a. ground arith

with_units_next :
    (curr end step : ℕ) (value : ℕ → Option DistributedPageEntry) (m : Map ℕ DistributedPageEntry)
    (a : ℕ)
    → 0 < step
    → curr < end
    → with_units (curr + step) end step value (λ b. if b == curr then value b else m b) a
      ≡ with_units curr end step value m a
with_units_next curr end step value m a s lt =
    let e = is_unit_next curr end step a s lt in ground (arith, e)

-- With fuel for the distance, and without a wrap of the address, the loop ends.
pub set_units_lem :
    (fuel curr end step : ℕ) (value : ℕ → Option DistributedPageEntry)
    (m : Map ℕ DistributedPageEntry)
    → 0 < step
    → end + step < u64_mod
    → end ≤ curr + fuel * step
    → set_units fuel curr end step value m ≡ some (with_units curr end step value m)
unfolding set_units
set_units_lem zero curr end step value m s w h =
    ground (arith, no_units curr end step value m (omega arith))
set_units_lem (suc fuel) curr end step value m s w h = elim (Bool-cases (ltb curr end)) [
  | inl e ↦
      let n : Map ℕ DistributedPageEntry = λ b. if b == curr then value b else m b in
      let rest =
        set_units_lem fuel (curr + step) end step value n s w (omega (arith, suc-mul fuel step)) in
      let same : with_units (curr + step) end step value n ≡ with_units curr end step value m =
        fun_ext λ a. with_units_next curr end step value m a s (ground arith) in
      let nowrap : add64 curr step ≡ curr + step = ground arith in
      if_true (some m) e (ap (λ k. set_units fuel k end step value n) nowrap ∙ rest ∙ ap some same)
  | inr e ↦ ground (arith, no_units curr end step value m (ground arith))
]

-- The region's addresses are u64 and do not wrap, also one unit past its end.
abbrev pub Fits : MemoryRegionDescriptor → Type 0
Fits d = d.main_vaddr + d.region_size + unit_size d < u64_mod

-- The loop over a region.
abbrev pub with_region :
    MemoryRegionDescriptor
    → (ℕ → Option DistributedPageEntry)
    → Map ℕ DistributedPageEntry
    → Map ℕ DistributedPageEntry
with_region d value m = with_units d.main_vaddr (d.main_vaddr + d.region_size) (unit_size d) value m

set_units_region :
    (d : MemoryRegionDescriptor) (value : ℕ → Option DistributedPageEntry)
    (m : Map ℕ DistributedPageEntry)
    → Fits d
    → set_units (rounds d) d.main_vaddr (end_addr d) (unit_size d) value m
      ≡ some (with_region d value m)
set_units_region d value m w =
    let u = unit_size d in
    let nowrap : end_addr d ≡ d.main_vaddr + d.region_size = omega arith in
    let enough = lt-div-mul-add {a = d.region_size} {b = u} (omega arith) in
    ap (λ e. set_units (rounds d) d.main_vaddr e u value m) nowrap
    ∙ set_units_lem (rounds d) d.main_vaddr (d.main_vaddr + d.region_size) u value m (omega arith) w
        (omega (arith, enough, suc-mul (d.region_size / u) u))

-- The manager with a region and its pages in a given state.
abbrev pub with_entries :
    ControlPlaneManager
    → MemoryRegionDescriptor
    → (ℕ → Option DistributedPageEntry)
    → Option MemoryRegionDescriptor
    → ControlPlaneManager
with_entries c d value r = record c {
  page_states = with_region d value c.page_states;
  regions = λ k. if region_id_eq.beq k d.region_id then r else c.regions k;
}

-- Registering a region whose addresses do not wrap always returns. It fails without an effect exactly
-- when the identifier is taken; otherwise it adds the region and a fresh invalid entry, owned by the
-- local node, for each page unit of the region, and changes nothing else.
pub register_region_with_metadata_lem :
    (c : ControlPlaneManager) (d : MemoryRegionDescriptor) (metadata : List ℕ)
    → Fits d
    → let fresh = λ (a : ℕ). some (new_with_metadata a (unit_size d) c.local_node_id metadata) in
      register_region_with_metadata c d metadata
      ≡ some (
          if Map.contains_key c.regions d.region_id
          then (c, err (region_already_exists d.region_id))
          else (with_entries c d fresh (some d), ok tt))
unfolding register_region_with_metadata
register_region_with_metadata_lem c d metadata w =
    let fresh = λ (a : ℕ). some (new_with_metadata a (unit_size d) c.local_node_id metadata) in
    let loop = set_units_region d fresh c.page_states w in ground (arith, loop)

-- Deregistering a region whose addresses do not wrap always returns, and removes the region and the
-- entries of its page units and nothing else.
pub deregister_region_lem :
    (c : ControlPlaneManager) (d : MemoryRegionDescriptor)
    → Fits d
    → c.regions d.region_id ≡ some d
    → deregister_region c d.region_id ≡ some (with_entries c d (λ a. none) none, ok tt)
unfolding deregister_region
deregister_region_lem c d w h = ground (arith, h, set_units_region d (λ a. none) c.page_states w)

-- Deregistering a region right after registering it restores the manager, provided that the region's
-- addresses do not wrap, its identifier was free and none of its page units had an entry.
pub deregister_region-register_region :
    (c : ControlPlaneManager) (d : MemoryRegionDescriptor) (metadata : List ℕ)
    → Fits d
    → c.regions d.region_id ≡ none
    → ((a : ℕ)
        → is_unit d.main_vaddr (d.main_vaddr + d.region_size) (unit_size d) a ≡ true
        → c.page_states a ≡ none)
    → (c' : ControlPlaneManager) × (register_region_with_metadata c d metadata ≡ some (c', ok tt))
      × (deregister_region c' d.region_id ≡ some (c, ok tt))
deregister_region-register_region c d metadata w free clear =
    let fresh = λ (a : ℕ). some (new_with_metadata a (unit_size d) c.local_node_id metadata) in
    let c' = with_entries c d fresh (some d) in
    let regions_same : (λ k. (with_entries c' d (λ a. none) none).regions k) ≡ c.regions =
      fun_ext λ k. ground (arith, free, region_eq_iff k d.region_id) in
    let pages_same : (λ a. (with_entries c' d (λ a. none) none).page_states a) ≡ c.page_states =
      fun_ext λ a. ground (arith, clear a) in
    let same : with_entries c' d (λ a. none) none ≡ c =
      ap₂ (λ r p. record c { regions = r; page_states = p }) regions_same pages_same in
    (
      c',
      register_region_with_metadata_lem c d metadata w ∙ ap some (ground (arith, free)),
      deregister_region_lem c' d w (ground arith) ∙ ap (λ x. some (x, ok tt)) same,
    )
