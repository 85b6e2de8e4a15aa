-- ===== src/MrRegistry/Examples.antt =====
-- The registry of src/klnk/librmashim/src/mr_registry.rs with two regions.
use virthub.Common.{ℕ, ◌≡◌, ◌<◌, refl, false, some, List, [], ◌∷◌}
use virthub.MrRegistry.{
  MemoryRegion, new, register, get, get_by_vaddr_size, deregister, Step, registers, deregisters,
  clears_regions, clears_index, step, clear_regions, clear_index,
}
use virthub.MrRegistry.Index.{run, IsKeyed, IsIndexed, get_by_vaddr_size-run}

abbrev region : ℕ → ℕ → MemoryRegion
region key address = record {
  rkey = key;
  lkey = key;
  vaddr = address;
  size = 4096;
  flags = 0;
  node_id = 1;
}

-- A deregistration falls between the two steps of a `clear`.
abbrev calls : List Step
calls =
    registers (region 1 0x1000)
    ∷ clears_regions
    ∷ deregisters 1
    ∷ clears_index
    ∷ registers (region 1 0x3000)
    ∷ registers (region 2 0x2000)
    ∷ deregisters 1
    ∷ []

new-IsKeyed : IsKeyed new
unfolding new
new-IsKeyed k = tt

new-IsIndexed : IsIndexed false new
unfolding new
new-IsIndexed v s = tt

found : get_by_vaddr_size (run new calls) 0x2000 4096 ≡ some (region 2 0x2000)
unfolding get_by_vaddr_size run step register deregister clear_regions clear_index new
found = refl

get_by_vaddr_size-run_example :
    ((region 2 0x2000).vaddr ≡ 0x2000)
    × ((region 2 0x2000).size ≡ 4096)
    × (0 < 4096)
    × (get (run new calls) 2 ≡ some (region 2 0x2000))
get_by_vaddr_size-run_example =
    get_by_vaddr_size-run new calls 0x2000 4096 (region 2 0x2000) new-IsKeyed new-IsIndexed tt found
