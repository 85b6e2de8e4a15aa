-- ===== src/Scheduler.antt =====
-- src/master/src/scheduler.rs: placement of allocations on the nodes of the cluster.
-- The registry is a list here, in the order in which the hash map would yield its entries. A call is
-- one step. The outer `none` of `schedule_allocation` is a panic, which comes with a shard count of 0.
pub mod Placement
pub mod Registry
pub mod Balance
mod Examples
use virthub.Common.{
  ℕ, zero, suc, ◌+◌, ◌-◌, ◌%◌, Bool, true, false, not, ◌&&◌, Option, none, some, List, [], ◌∷◌,
  if◌then◌else◌, ltb, leb, ◌==◌, length, get_elem?,
}
use virthub.Common.Word.{add64, mul64, u64_mod}
use virthub.Common.Float.{Float}
use virthub.Common.Result.{Result, ok, err}
use virthub.Precision.Hysteresis
use virthub.Precision.Hysteresis.{MemoryPressureState, nominal}
use virthub.Precision.Policy.{PackedBlockPolicy}
use virthub.Precision.Predictor
use virthub.Precision.Predictor.{Predictor}

pub data SchedulingPolicy : Type 0 where
  least_loaded round_robin numa_affinity : SchedulingPolicy

pub data SchedulerError : Type 0 where
  no_node_available : (requested_bytes : ℕ) → SchedulerError
  node_not_found : ℕ → SchedulerError
  capacity_exceeded : (node_id available_bytes requested_bytes : ℕ) → SchedulerError

pub record NodeResourceCapacity : Type 0 where
  pub node_id : ℕ
  pub total_memory_bytes : ℕ
  pub allocated_memory_bytes : ℕ
  pub numa_nodes : ℕ
  pub active_rdma_qps : ℕ
  pub is_online : Bool

unfoldable pub new_capacity : ℕ → ℕ → ℕ → NodeResourceCapacity
new_capacity node_id total_memory_bytes numa_nodes = record {
  node_id = node_id;
  total_memory_bytes = total_memory_bytes;
  allocated_memory_bytes = 0;
  numa_nodes = numa_nodes;
  active_rdma_qps = 0;
  is_online = true;
}

unfoldable pub available_memory_bytes : NodeResourceCapacity → ℕ
available_memory_bytes n =
    if ltb n.allocated_memory_bytes n.total_memory_bytes
    then n.total_memory_bytes - n.allocated_memory_bytes
    else 0

pub record PlacementDecision : Type 0 where
  pub selected_node_id : ℕ
  pub target_numa_node : ℕ
  pub allocated_vaddr : ℕ
  pub size_bytes : ℕ
  pub shard_id : ℕ

-- The tests of the loop that collects the candidates.
unfoldable pub is_candidate : NodeResourceCapacity → ℕ → Option ℕ → Bool
unfolding available_memory_bytes
is_candidate n size hint =
    n.is_online
    && leb size (available_memory_bytes n)
    && elim hint [ none ↦ true | some h ↦ ltb h n.numa_nodes ]

unfoldable pub candidates : List NodeResourceCapacity → ℕ → Option ℕ → List NodeResourceCapacity
unfolding is_candidate
candidates [] size hint = []
candidates (n ∷ ns) size hint =
    let rest = candidates ns size hint in if is_candidate n size hint then n ∷ rest else rest

-- `nodes.get(&id)` and a change of the entry, and whether it is there.
unfoldable pub modify_node :
    List NodeResourceCapacity → ℕ → (ℕ → ℕ) → List NodeResourceCapacity × Bool
modify_node [] id f = ([], false)
modify_node (n ∷ ns) id f =
    let (ns', found) = modify_node ns id f in
    if n.node_id == id
    then (record n { allocated_memory_bytes = f n.allocated_memory_bytes } ∷ ns, true)
    else (n ∷ ns', found)

unfoldable pub remove_node : List NodeResourceCapacity → ℕ → List NodeResourceCapacity
remove_node [] id = []
remove_node (n ∷ ns) id = if n.node_id == id then ns else n ∷ remove_node ns id

module _ (F : Float) where
  pub record SchedulerConfig : Type 0 where
    pub prefetch_window : ℕ
    pub l0_promote_threshold : ℕ
    pub l1_demote_idle_secs : ℕ
    pub lru_decay : F.Carrier
    pub shard_count : ℕ

  pub record ClusterScheduler : Type 0 where
    pub policy : SchedulingPolicy
    pub config : SchedulerConfig
    pub nodes : List NodeResourceCapacity
    pub next_rr_index : ℕ
    pub predictor : Option Predictor
    pub pressure_state : MemoryPressureState

  unfoldable pub new : SchedulingPolicy → SchedulerConfig → ClusterScheduler
  new policy config = record {
    policy = policy;
    config = config;
    nodes = [];
    next_rr_index = 0;
    predictor = none;
    pressure_state = nominal;
  }

  unfoldable pub load_ratio : NodeResourceCapacity → F.Carrier
  load_ratio n =
      if n.total_memory_bytes == 0
      then F.literal 100
      else F.div (F.from_usize n.allocated_memory_bytes) (F.from_usize n.total_memory_bytes)

  unfoldable pub init_predictor : ClusterScheduler → ℕ → ClusterScheduler
  init_predictor s total_layers = record s { predictor = some (Predictor.new total_layers) }

  unfoldable pub update_memory_pressure : ClusterScheduler → ℕ → ℕ → ClusterScheduler
  update_memory_pressure s free_blocks total_blocks = if total_blocks == 0 then s else record s {
    pressure_state =
        Hysteresis.update F s.pressure_state
          (F.sub (F.literal 100) (F.div (F.from_usize free_blocks) (F.from_usize total_blocks)));
  }

  -- The outer `none` is a panic of the predictor.
  unfoldable pub predict_block_policy :
      ClusterScheduler
      → (layer_idx token_start seq_len head_mask : ℕ) → Bool
      → Option (Option PackedBlockPolicy)
  predict_block_policy s layer_idx token_start seq_len head_mask retrieval_flag = elim s.predictor [
    | none ↦ some none
    | some p ↦
        elim (Predictor.predict p layer_idx token_start seq_len s.pressure_state head_mask
          retrieval_flag) [ none ↦ none | some policy ↦ some (some policy) ]
  ]

  unfoldable pub register_node : ClusterScheduler → NodeResourceCapacity → ClusterScheduler
  unfolding remove_node
  register_node s n = record s { nodes = n ∷ remove_node s.nodes n.node_id }

  unfoldable pub unregister_node : ClusterScheduler → ℕ → ClusterScheduler
  unfolding remove_node
  unregister_node s id = record s { nodes = remove_node s.nodes id }

  -- `min_by`: the first of the least entries. A comparison that is not `Greater` keeps the entry.
  unfoldable pub min_by_load :
      NodeResourceCapacity → List NodeResourceCapacity → NodeResourceCapacity
  unfolding load_ratio
  min_by_load best [] = best
  min_by_load best (n ∷ ns) =
      min_by_load (if F.lt (load_ratio n) (load_ratio best) then n else best) ns

  -- The node that the policy selects among the candidates, of which there is one at least; `none` is
  -- an index out of range.
  unfoldable pub select :
      SchedulingPolicy
      → ℕ
      → NodeResourceCapacity
      → List NodeResourceCapacity
      → Option NodeResourceCapacity
  unfolding min_by_load
  select least_loaded rr_index c cs = some (min_by_load c cs)
  select round_robin rr_index c cs = get_elem? (c ∷ cs) (rr_index % length (c ∷ cs))
  select numa_affinity rr_index c cs = some c

  -- The counter of `fetch_add`, which only the round-robin policy moves.
  unfoldable pub advanced : ClusterScheduler → ℕ
  advanced s = elim s.policy [ round_robin ↦ add64 s.next_rr_index 1 | _ ↦ s.next_rr_index ]

  unfoldable pub decision : ClusterScheduler → ℕ → Option ℕ → ℕ → PlacementDecision
  decision s size hint id = record {
    selected_node_id = id;
    target_numa_node = elim hint [ none ↦ 0 | some h ↦ h ];
    allocated_vaddr = add64 0x7fff_0000_0000 (mul64 id 0x10_0000_0000);
    size_bytes = size;
    shard_id = id % s.config.shard_count;
  }

  -- The rest of `schedule_allocation`, after the selection.
  unfoldable pub reserve :
      ClusterScheduler
      → ℕ
      → Option ℕ
      → ℕ
      → Option (ClusterScheduler × Result SchedulerError PlacementDecision)
  unfolding modify_node decision advanced
  reserve s size hint id =
      let (nodes, found) = modify_node s.nodes id (λ a. add64 a size) in
      let s' = record s { nodes = nodes; next_rr_index = advanced s } in
      if found
      then (if s.config.shard_count == 0 then none else some (s', ok (decision s size hint id)))
      else some (s', err (node_not_found id))

  unfoldable pub schedule_allocation :
      ClusterScheduler
      → ℕ
      → Option ℕ
      → Option (ClusterScheduler × Result SchedulerError PlacementDecision)
  unfolding candidates select reserve
  schedule_allocation s size hint = elim (candidates s.nodes size hint) [
    | [] ↦ some (s, err (no_node_available size))
    | c ∷ cs ↦ elim (select s.policy s.next_rr_index c cs) [
      | none ↦ none
      | some n ↦ reserve s size hint n.node_id
    ]
  ]

  -- The subtraction of `release_allocation` when the counter does not change in between.
  unfoldable pub release_allocation : ClusterScheduler → ℕ → ℕ → ClusterScheduler
  unfolding modify_node
  release_allocation s id size = record s {
    nodes = (modify_node s.nodes id (λ a. if leb size a then a - size else 0)).0;
  }
