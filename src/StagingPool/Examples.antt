-- ===== src/StagingPool/Examples.antt =====
-- A pool of src/store/src/staging_pool.rs with three slots of 4 KiB.
use virthub.Common.{ℕ, ◌+◌, ◌≡◌, refl, List, [], ◌∷◌, length, arith}
use virthub.Common.Result.{Result, ok}
use virthub.StagingPool.{
  StagingMemoryPool, new, push, push_from, handle, pop_slot, push_slot, available_slots,
  active_slots,
}
use virthub.StagingPool.Sharing.{Call, takes, returns, run, count, run_partitions}
use virthub.StagingPool.Batches.{push_slot_twice_shares}

abbrev mmap : ℕ → Result ℕ ℕ
mmap size = ok 0x7fff0000

abbrev pool : List ℕ → ℕ → StagingMemoryPool
pool free active = record {
  base_ptr = 0x7fff0000;
  total_bytes = 12288;
  slot_page_size = 4096;
  num_slots = 3;
  free_slots = free;
  numa_node = 0;
  active_popped_count = active;
}

made : new mmap 3 4096 0 ≡ ok (pool (0 ∷ 1 ∷ 2 ∷ []) 0)
unfolding new push_from push
made = refl

abbrev calls : List Call
calls = takes ∷ takes ∷ returns 0 ∷ returns 0 ∷ takes ∷ []

run_partitions_example :
    let s = run (record { pool = pool (0 ∷ 1 ∷ 2 ∷ []) 0; held = [] }) calls in
    (count 1 s.pool.free_slots + count 1 s.held ≡ 1)
    × (active_slots s.pool ≡ length s.held)
    × (available_slots s.pool + active_slots s.pool ≡ 3)
run_partitions_example =
    run_partitions mmap 3 4096 0 (pool (0 ∷ 1 ∷ 2 ∷ []) 0) calls 1 (omega arith) made

push_slot_twice_shares_example :
    let p1 = (push_slot (push_slot (pool [] 3) 1).0 1).0 in
    let (p2, first) = pop_slot p1 in
    let (p3, second) = pop_slot p2 in
    (first ≡ ok (handle (pool [] 3) 1)) × (second ≡ ok (handle (pool [] 3) 1))
push_slot_twice_shares_example =
    push_slot_twice_shares (pool [] 3) 1 (omega arith) (omega arith) refl
