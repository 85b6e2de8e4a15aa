-- ===== src/ControlPlane/Examples.antt =====
-- The control plane of src/klnk/klnk-core/src/control_plane.rs on one region and one lock.
use virthub.Common.{◌≡◌, refl, true, false, some, List, [], ◌∷◌, arith, nat_eq}
use virthub.Common.Map
use virthub.Common.Result.{ok}
use virthub.Domain.{MemoryRegionDescriptor, new_with_metadata, exclusive_write, shared_read}
use virthub.ControlPlane.{
  ControlPlaneManager, new, register_region_with_metadata, deregister_region, get_page_version,
  get_readers, contains, is_exclusive,
}
use virthub.ControlPlane.Locks.{
  IsLocks, LockCall, acquire, release, lock_queue, run_locks, run_queues, run_locks_refines,
}
use virthub.ControlPlane.Pages.{
  PageCall, set_state, add_node, remove_node, run_pages, run_pages-version, run_pages-Reads, Reads,
}
use virthub.ControlPlane.Regions.{
  Fits, with_entries, register_region_with_metadata_lem, deregister_region-register_region,
}

abbrev manager : ControlPlaneManager
manager = new 1

abbrev region : MemoryRegionDescriptor
region = record {
  region_id = record { owner_pid = 7; shmid = 3 };
  main_vaddr = 0x10000;
  region_size = 10000;
  staging_vaddr = 0x90000;
  staging_num_pages = 4;
  staging_page_size = 1024;
  prot_flags = 3;
  mem_flags = 0;
  version = 1;
}

region-Fits : Fits region
region-Fits = omega arith

manager-IsLocks : IsLocks manager
unfolding new
manager-IsLocks r = tt

abbrev lock_calls : List LockCall
lock_calls =
    acquire 5 10
    ∷ acquire 5 11
    ∷ acquire 5 11
    ∷ acquire 5 10
    ∷ release 5 11
    ∷ release 5 10
    ∷ acquire 5 11
    ∷ []

run_locks_refines_example :
    IsLocks (run_locks manager lock_calls).0
    × (lock_queue (run_locks manager lock_calls).0 ≡ (run_queues (lock_queue manager) lock_calls).0)
    × ((run_locks manager lock_calls).1 ≡ true ∷ false ∷ false ∷ true ∷ false ∷ true ∷ true ∷ [])
unfolding new run_queues contains
run_locks_refines_example = run_locks_refines manager lock_calls manager-IsLocks

register_region_with_metadata_lem_example :
    register_region_with_metadata manager region (9 ∷ [])
    ≡ some (
      with_entries manager region (λ a. some (new_with_metadata a 4096 1 (9 ∷ []))) (some region),
      ok tt,
    )
unfolding new
register_region_with_metadata_lem_example =
    register_region_with_metadata_lem manager region (9 ∷ []) region-Fits

deregister_region-register_region_example :
    (c' : ControlPlaneManager) × (register_region_with_metadata manager region []
      ≡ some (c', ok tt))
    × (deregister_region c' region.region_id ≡ some (manager, ok tt))
unfolding new
deregister_region-register_region_example =
    deregister_region-register_region manager region [] region-Fits refl (λ a h. refl)

abbrev with_page : ControlPlaneManager
with_page = record (new 1) {
  page_states = Map.insert Map.empty 4096 (new_with_metadata 4096 4096 1 []);
}

abbrev page_calls : List PageCall
page_calls =
    add_node 4096 5
    ∷ set_state 4096 exclusive_write 2
    ∷ add_node 4096 6
    ∷ set_state 8192 exclusive_write 2
    ∷ set_state 4096 shared_read 2
    ∷ add_node 4096 7
    ∷ remove_node 4096 6
    ∷ []

run_pages-version_example : get_page_version (run_pages with_page page_calls) 4096 ≡ some 1
unfolding new get_page_version new_with_metadata is_exclusive
run_pages-version_example = run_pages-version with_page page_calls 4096 0 (omega arith) refl

run_pages-Reads_example : Reads (run_pages with_page page_calls) 4096 7 true
unfolding new get_readers contains new_with_metadata is_exclusive
run_pages-Reads_example = run_pages-Reads with_page page_calls 4096 7 false refl
