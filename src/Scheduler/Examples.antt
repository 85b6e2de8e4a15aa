-- ===== src/Scheduler/Examples.antt =====
-- The scheduler of src/master/src/scheduler.rs on a cluster of two nodes.
use virthub.Common.{ℕ, ◌≡◌, refl, true, none, some, List, [], ◌∷◌, In, arith}
use virthub.Common.Float.{hundredths}
use virthub.Common.Result.{ok}
use virthub.Precision.Hysteresis.{nominal}
use virthub.Scheduler.{
  NodeResourceCapacity, ClusterScheduler, PlacementDecision, least_loaded, candidates, is_candidate,
  available_memory_bytes, schedule_allocation, decision, release_allocation,
}
use virthub.Scheduler.Placement.{IsRegistry, Placed, schedule_allocation-Placed, allocated_on}
use virthub.Scheduler.Registry.{Call, registers, unregisters, schedules, frees, run, run-IsRegistry}
use virthub.Scheduler.Balance.{
  IsLeast, schedule_allocation-IsLeast, release_allocation-schedule_allocation,
}

abbrev node : ℕ → ℕ → NodeResourceCapacity
node id allocated = record {
  node_id = id;
  total_memory_bytes = 1000;
  allocated_memory_bytes = allocated;
  numa_nodes = 2;
  active_rdma_qps = 0;
  is_online = true;
}

abbrev cluster : ClusterScheduler hundredths
cluster = record {
  policy = least_loaded;
  config = record {
    prefetch_window = 8;
    l0_promote_threshold = 100;
    l1_demote_idle_secs = 60;
    lru_decay = 80;
    shard_count = 64;
  };
  nodes = node 1 500 ∷ node 2 200 ∷ [];
  next_rr_index = 0;
  predictor = none;
  pressure_state = nominal;
}

cluster-IsRegistry : IsRegistry cluster.nodes
cluster-IsRegistry = ground arith

schedule_allocation-Placed_example :
    Placed hundredths cluster 300 (some 1) (schedule_allocation hundredths cluster 300 (some 1))
schedule_allocation-Placed_example =
    schedule_allocation-Placed hundredths cluster 300 (some 1) cluster-IsRegistry (omega arith)

abbrev calls : List Call
calls =
    registers (node 3 0)
    ∷ schedules 300 none
    ∷ frees 2 100
    ∷ unregisters 1
    ∷ schedules 700 (some 1)
    ∷ []

run-IsRegistry_example :
    (s : ClusterScheduler hundredths) × (run hundredths cluster calls ≡ some s) × IsRegistry s.nodes
run-IsRegistry_example =
    run-IsRegistry hundredths cluster calls cluster-IsRegistry (omega arith)
      ((omega arith, omega arith), (tt, (tt, (tt, (tt, tt)))))

both : candidates cluster.nodes 300 none ≡ node 1 500 ∷ node 2 200 ∷ []
unfolding candidates is_candidate available_memory_bytes
both = refl

schedule_allocation-IsLeast_example :
    (n : NodeResourceCapacity) × In n cluster.nodes
    × (is_candidate n 300 none ≡ true)
    × (schedule_allocation hundredths cluster 300 none
        ≡ some (
          record cluster { nodes = allocated_on n.node_id 300 cluster.nodes },
          ok (decision hundredths cluster 300 none n.node_id),
        ))
    × IsLeast hundredths n (node 1 500 ∷ node 2 200 ∷ [])
schedule_allocation-IsLeast_example =
    schedule_allocation-IsLeast hundredths cluster 300 none (node 1 500) (node 2 200 ∷ [])
      cluster-IsRegistry (omega arith) refl both

abbrev placed : ClusterScheduler hundredths
placed = record cluster { nodes = node 1 500 ∷ node 2 500 ∷ [] }

abbrev placement : PlacementDecision
placement = record {
  selected_node_id = 2;
  target_numa_node = 0;
  allocated_vaddr = 0x801f_0000_0000;
  size_bytes = 300;
  shard_id = 2;
}

scheduled : schedule_allocation hundredths cluster 300 none ≡ some (placed, ok placement)
unfolding schedule_allocation
scheduled = refl

release_allocation-schedule_allocation_example :
    (release_allocation hundredths placed 2 300).nodes ≡ cluster.nodes
release_allocation-schedule_allocation_example =
    release_allocation-schedule_allocation hundredths cluster placed 300 none placement
      cluster-IsRegistry (omega arith) scheduled
