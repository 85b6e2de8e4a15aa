-- ===== src/Coordinator/Examples.antt =====
-- The coordinator of src/master/src/coordinator.rs with two nodes.
use virthub.Common.{ℕ, ◌+◌, ◌≡◌, refl, true, List, [], ◌∷◌, if◌then◌else◌, length, arith}
use virthub.Common.Result.{err}
use virthub.Coordinator.{
  MasterCoordinator, NodeDescriptor, node_not_found, new, get_node, active_node_count,
  evict_stale_nodes,
}
use virthub.Coordinator.Nodes.{IsCoordinator, stale_node, member}
use virthub.Coordinator.Counts.{
  Call, registers, beats, evicts, removes, run, IsActive, active_node_count-run,
  evict_stale_nodes_lem,
}

abbrev calls : List Call
calls =
    registers 0 1 100
    ∷ registers 10 2 200
    ∷ beats 4000 2
    ∷ evicts 6000
    ∷ beats 6001 1
    ∷ removes 2
    ∷ []

active_node_count-run_example :
    (active_node_count (run (new 5000) calls) ≡ length (run (new 5000) calls).nodes)
    × IsActive (get_node (run (new 5000) calls) 1)
active_node_count-run_example = active_node_count-run 5000 calls 1 (omega arith)

abbrev node : ℕ → ℕ → NodeDescriptor
node id t = record { node_id = id; endpoint_addr = 100; last_heartbeat = t; is_active = true }

abbrev cluster : MasterCoordinator
cluster = record (new 5000) { nodes = node 1 0 ∷ node 2 4000 ∷ []; active_count = 2 }

cluster-IsCoordinator : IsCoordinator cluster
cluster-IsCoordinator = record {
  distinct = (refl, (refl, tt));
  active = (refl, (refl, tt));
  counted = refl;
}

evict_stale_nodes_lem_example :
    let (c', ids) = evict_stale_nodes cluster 6000 in
    (get_node c' 1
      ≡ (if stale_node cluster 6000 1 then err (node_not_found 1) else get_node cluster 1))
    × (member 1 ids ≡ stale_node cluster 6000 1)
    × (active_node_count c' + length ids ≡ active_node_count cluster)
evict_stale_nodes_lem_example =
    evict_stale_nodes_lem cluster 6000 1 cluster-IsCoordinator (omega arith)
