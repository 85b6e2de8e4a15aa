-- ===== src/Coordinator.antt =====
-- src/master/src/coordinator.rs: the nodes of the cluster and their heartbeats. The clock's reading, in
-- milliseconds, is passed in. A method holds the lock of the map, so it is one step.
pub mod Nodes
pub mod Counts
mod Examples
use virthub.Common.{
  ℕ, ◌+◌, ◌-◌, ◌%◌, ◌^◌, Bool, true, false, ◌&&◌, not, Option, none, some, List, [], ◌∷◌, ◌++◌,
  if◌then◌else◌, ltb, ◌==◌, length,
}
use virthub.Common.Word.{add64, sub64}
use virthub.Common.Result.{Result, ok, err}

pub data MasterError : Type 0 where
  node_already_exists node_not_found : ℕ → MasterError

-- The address is a number: it is only stored.
pub record NodeDescriptor : Type 0 where
  pub node_id : ℕ
  pub endpoint_addr : ℕ
  pub last_heartbeat : ℕ
  pub is_active : Bool

pub record CoordinatorMetrics : Type 0 where
  pub total_registrations : ℕ
  pub total_heartbeats : ℕ
  pub total_evictions : ℕ

-- The nodes stand in the order in which the map is iterated.
pub record MasterCoordinator : Type 0 where
  pub heartbeat_timeout_ms : ℕ
  pub nodes : List NodeDescriptor
  pub running : Bool
  pub active_count : ℕ
  pub metrics : CoordinatorMetrics

unfoldable pub new : ℕ → MasterCoordinator
new heartbeat_timeout_ms = record {
  heartbeat_timeout_ms = heartbeat_timeout_ms;
  nodes = [];
  running = true;
  active_count = 0;
  metrics = record { total_registrations = 0; total_heartbeats = 0; total_evictions = 0 };
}

abbrev pub lookup : ℕ → List NodeDescriptor → Option NodeDescriptor
lookup id [] = none
lookup id (n ∷ ns) = if n.node_id == id then some n else lookup id ns

abbrev pub delete : ℕ → List NodeDescriptor → List NodeDescriptor
delete id [] = []
delete id (n ∷ ns) = if n.node_id == id then ns else n ∷ delete id ns

-- `get_mut` and a change in place.
abbrev pub modify :
    ℕ → (NodeDescriptor → NodeDescriptor) → List NodeDescriptor → List NodeDescriptor
modify id f [] = []
modify id f (n ∷ ns) = if n.node_id == id then f n ∷ ns else n ∷ modify id f ns

unfoldable pub register_node :
    MasterCoordinator
    → (now node_id endpoint_addr : ℕ) → MasterCoordinator × Result MasterError (Unit {0})
register_node c now node_id endpoint_addr = elim (lookup node_id c.nodes) [
  | some _ ↦ (c, err (node_already_exists node_id))
  | none ↦
      let descriptor : NodeDescriptor = record {
        node_id = node_id;
        endpoint_addr = endpoint_addr;
        last_heartbeat = now;
        is_active = true;
      } in
      (
        record c {
          nodes = descriptor ∷ c.nodes;
          active_count = add64 c.active_count 1;
          metrics = record (c.metrics) {
            total_registrations = add64 c.metrics.total_registrations 1;
          };
        },
        ok tt,
      )
]

unfoldable pub record_heartbeat :
    MasterCoordinator → (now node_id : ℕ) → MasterCoordinator × Result MasterError (Unit {0})
record_heartbeat c now node_id = elim (lookup node_id c.nodes) [
  | none ↦ (c, err (node_not_found node_id))
  | some node ↦ (
    record c {
      nodes = modify node_id (λ n. record n { is_active = true; last_heartbeat = now }) c.nodes;
      active_count = if node.is_active then c.active_count else add64 c.active_count 1;
      metrics = record (c.metrics) { total_heartbeats = add64 c.metrics.total_heartbeats 1 };
    },
    ok tt,
  )
]

-- `elapsed` is zero for a heartbeat after the clock's reading.
unfoldable pub is_stale : (timeout now : ℕ) → NodeDescriptor → Bool
is_stale timeout now n = n.is_active && ltb timeout (now - n.last_heartbeat)

unfoldable pub stale_ids : (timeout now : ℕ) → List NodeDescriptor → List ℕ
unfolding is_stale
stale_ids timeout now [] = []
stale_ids timeout now (n ∷ ns) =
    let others = stale_ids timeout now ns in
    if is_stale timeout now n then n.node_id ∷ others else others

-- The two loops over the stale identifiers.
unfoldable pub deactivate_all : List ℕ → List NodeDescriptor → List NodeDescriptor
deactivate_all [] ns = ns
deactivate_all (id ∷ ids) ns =
    deactivate_all ids (modify id (λ n. record n { is_active = false }) ns)

unfoldable pub delete_all : List ℕ → List NodeDescriptor → List NodeDescriptor
delete_all [] ns = ns
delete_all (id ∷ ids) ns = delete_all ids (delete id ns)

unfoldable pub evict_stale_nodes : MasterCoordinator → (now : ℕ) → MasterCoordinator × List ℕ
unfolding stale_ids deactivate_all delete_all
evict_stale_nodes c now =
    let ids = stale_ids c.heartbeat_timeout_ms now c.nodes in
    let nodes = delete_all ids (deactivate_all ids c.nodes) in
    (
      if length ids == 0 then record c { nodes = nodes } else record c {
        nodes = nodes;
        active_count = sub64 c.active_count (length ids);
        metrics = record (c.metrics) {
          total_evictions = add64 c.metrics.total_evictions (length ids);
        };
      },
      ids,
    )

unfoldable pub remove_node :
    MasterCoordinator → (node_id : ℕ) → MasterCoordinator × Result MasterError (Unit {0})
remove_node c node_id = elim (lookup node_id c.nodes) [
  | none ↦ (c, err (node_not_found node_id))
  | some desc ↦ (
    record c {
      nodes = delete node_id c.nodes;
      active_count = if desc.is_active then sub64 c.active_count 1 else c.active_count;
    },
    ok tt,
  )
]

unfoldable pub get_node : MasterCoordinator → ℕ → Result MasterError NodeDescriptor
get_node c node_id = elim (lookup node_id c.nodes) [
  | none ↦ err (node_not_found node_id)
  | some n ↦ ok n
]

unfoldable pub active_node_count : MasterCoordinator → ℕ
active_node_count c = c.active_count

unfoldable pub shutdown : MasterCoordinator → MasterCoordinator
shutdown c = record c { running = false }
