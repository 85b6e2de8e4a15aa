-- ===== src/MrRegistry/Index.antt =====
-- The two indices of src/klnk/librmashim/src/mr_registry.rs over interleaved calls.
use virthub.Common.{
  ℕ, ◌≡◌, ◌≢◌, ◌<◌, refl, Bool, true, false, none, some, List, [], ◌∷◌, arith, Option-cases, inl,
  inr,
}
use virthub.MrRegistry.{
  MemoryRegion, MemoryRegionRegistry, register, get, get_by_vaddr_size, deregister, clear_regions,
  clear_index, clear, Step, registers, deregisters, clears_regions, clears_index, step,
}

unfoldable pub run : MemoryRegionRegistry → List Step → MemoryRegionRegistry
unfolding step
run m [] = m
run m (c ∷ cs) = run (step m c) cs

-- The two steps of `clear`, taken one after the other, are a call of it.
run-clear : (m : MemoryRegionRegistry) → run m (clears_regions ∷ clears_index ∷ []) ≡ clear m
unfolding run clear
run-clear m = refl

-- Whether the regions have been cleared and the second index not yet.
abbrev pub pending_after : Bool → Step → Bool
pending_after pending clears_regions = true
pending_after pending clears_index = false
pending_after pending _ = pending

-- No region is registered between the two steps of a `clear`.
abbrev pub IsFenced : Bool → List Step → Type 0
IsFenced pending [] = Unit {0}
IsFenced true (registers r ∷ cs) = ⊥
IsFenced pending (c ∷ cs) = IsFenced (pending_after pending c) cs

-- A region stands under its own key and is not empty.
abbrev pub IsKeyed : MemoryRegionRegistry → Type 0
IsKeyed m = (k : ℕ) → elim (m.regions k) [ none ↦ Unit {0} | some r ↦ (r.rkey ≡ k) × (0 < r.size) ]

-- What the second index names is registered with just that range; while a `clear` is under way it may
-- also be gone.
abbrev pub IsIndexed : Bool → MemoryRegionRegistry → Type 0
IsIndexed pending m = (v s : ℕ) → elim (m.vaddr_index (v, s)) [
  | none ↦ Unit {0}
  | some k ↦ elim (m.regions k) [ none ↦ pending ≡ true | some r ↦ (r.vaddr ≡ v) × (r.size ≡ s) ]
]

step-IsKeyed : (m : MemoryRegionRegistry) (c : Step) → IsKeyed m → IsKeyed (step m c)
unfolding step
step-IsKeyed m (registers r) h k = unfold register in ground (arith, h k)
step-IsKeyed m (deregisters j) h k = unfold deregister in ground (arith, h k)
step-IsKeyed m clears_regions h k = unfold clear_regions in tt
step-IsKeyed m clears_index h k = unfold clear_index in h k

step-IsIndexed :
    (pending : Bool) (m : MemoryRegionRegistry) (c : Step)
    → IsFenced pending (c ∷ [])
    → IsIndexed pending m
    → IsIndexed (pending_after pending c) (step m c)
unfolding step
step-IsIndexed true m (registers r) f h v s = absurd f
step-IsIndexed false m (registers r) f h v s = unfold register in ground (arith, h v s)
step-IsIndexed pending m (deregisters j) f h v s = unfold deregister in ground (arith, h v s)
step-IsIndexed pending m clears_regions f h v s = unfold clear_regions in ground arith
step-IsIndexed pending m clears_index f h v s = unfold clear_index in tt

IsFenced-split :
    (pending : Bool) (c : Step) (cs : List Step)
    → IsFenced pending (c ∷ cs)
    → IsFenced pending (c ∷ []) × IsFenced (pending_after pending c) cs
IsFenced-split true (registers r) cs f = absurd f
IsFenced-split false (registers r) cs f = (tt, f)
IsFenced-split true (deregisters k) cs f = (tt, f)
IsFenced-split false (deregisters k) cs f = (tt, f)
IsFenced-split true clears_regions cs f = (tt, f)
IsFenced-split false clears_regions cs f = (tt, f)
IsFenced-split true clears_index cs f = (tt, f)
IsFenced-split false clears_index cs f = (tt, f)

get_by_vaddr_size_now :
    (pending : Bool) (m : MemoryRegionRegistry) (v s : ℕ) (r : MemoryRegion)
    → IsKeyed m
    → IsIndexed pending m
    → get_by_vaddr_size m v s ≡ some r
    → (r.vaddr ≡ v) × (r.size ≡ s) × (0 < s) × (get m r.rkey ≡ some r)
unfolding get get_by_vaddr_size
get_by_vaddr_size_now pending m v s r keyed indexed e = elim (Option-cases (m.vaddr_index (v, s))) [
  | inl z ↦ absurd (ground (arith, z, e))
  | inr (k, z) ↦ ground (arith, z, e, keyed k, indexed v s)
]

get_by_vaddr_size-run_from :
    (pending : Bool) (m : MemoryRegionRegistry) (cs : List Step) (v s : ℕ) (r : MemoryRegion)
    → IsKeyed m
    → IsIndexed pending m
    → IsFenced pending cs
    → get_by_vaddr_size (run m cs) v s ≡ some r
    → (r.vaddr ≡ v) × (r.size ≡ s) × (0 < s) × (get (run m cs) r.rkey ≡ some r)
unfolding run
get_by_vaddr_size-run_from pending m [] v s r keyed indexed fenced e =
    get_by_vaddr_size_now pending m v s r keyed indexed e
get_by_vaddr_size-run_from pending m (c ∷ cs) v s r keyed indexed fenced e =
    let split = IsFenced-split pending c cs fenced in
    get_by_vaddr_size-run_from (pending_after pending c) (step m c) cs v s r
      (step-IsKeyed m c keyed) (step-IsIndexed pending m c split.0 indexed) split.1 e

-- From a registry whose two indices agree, whatever registrations, deregistrations and steps of
-- `clear` follow in whatever order, as long as no region is registered between the clearing of the
-- regions and the next clearing of the second index: a lookup by range returns only a region that is
-- registered, under its own key, with exactly that range and not empty.
pub get_by_vaddr_size-run :
    (m : MemoryRegionRegistry) (cs : List Step) (v s : ℕ) (r : MemoryRegion)
    → IsKeyed m
    → IsIndexed false m
    → IsFenced false cs
    → get_by_vaddr_size (run m cs) v s ≡ some r
    → (r.vaddr ≡ v) × (r.size ≡ s) × (0 < s) × (get (run m cs) r.rkey ≡ some r)
get_by_vaddr_size-run = get_by_vaddr_size-run_from false

-- The condition is needed: when the second index names the key `b.rkey` for some range and a region `b`
-- is registered under it between the two steps of a `clear`, a lookup by that range returns `b`,
-- whatever the range of `b`.
pub clear_race :
    (m : MemoryRegionRegistry) (b : MemoryRegion) (v s : ℕ)
    → m.vaddr_index (v, s) ≡ some b.rkey
    → 0 < b.vaddr
    → 0 < b.size
    → get_by_vaddr_size (run m (clears_regions ∷ registers b ∷ [])) v s ≡ some b
unfolding run get_by_vaddr_size register clear_regions
clear_race m b v s named address size = ground (arith, named, address, size)

-- Of two regions registered with the same range under different keys, deregistering either one
-- hides the other from the lookup by range while it stays registered.
pub deregister_hides_alias :
    (m : MemoryRegionRegistry) (a b : MemoryRegion)
    → get m a.rkey ≡ some a
    → get m b.rkey ≡ some b
    → a.rkey ≢ b.rkey
    → a.vaddr ≡ b.vaddr
    → a.size ≡ b.size
    → let m' = (deregister m a.rkey).0 in
      (get m' b.rkey ≡ some b) × (get_by_vaddr_size m' b.vaddr b.size ≡ none)
unfolding get get_by_vaddr_size deregister
deregister_hides_alias m a b ha hb ne v s = ground (arith, ha, hb, ne, v, s)
