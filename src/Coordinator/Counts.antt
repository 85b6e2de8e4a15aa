-- ===== src/Coordinator/Counts.antt =====
-- The counter of active nodes and the evictions of src/master/src/coordinator.rs.
use virthub.Common.{
  ℕ, ◌+◌, ◌≤◌, ◌<◌, ◌≡◌, refl, ap, ◌∙◌, true, List, [], ◌∷◌, if◌then◌else◌, length, arith,
  Option-cases, inl, inr,
}
use virthub.Common.Word.{u64_mod}
use virthub.Common.Result.{Result, ok, err}
use virthub.Coordinator.{
  MasterCoordinator, NodeDescriptor, MasterError, node_not_found, new, lookup, register_node,
  record_heartbeat, evict_stale_nodes, remove_node, get_node, active_node_count,
}
use virthub.Coordinator.Nodes.{
  IsCoordinator, member, stale_node, lookup-keep, length-keep, member-stale_ids,
  evict_stale_nodes_nodes, evict_stale_nodes-IsCoordinator, IsDistinct-delete, AllActive-delete,
  delete-some, IsDistinct-beat, AllActive-beat, length-beat, active_lookup,
}

pub data Call : Type 0 where
  registers : (now node_id endpoint_addr : ℕ) → Call
  beats : (now node_id : ℕ) → Call
  evicts : (now : ℕ) → Call
  removes : (node_id : ℕ) → Call

unfoldable pub call : MasterCoordinator → Call → MasterCoordinator
call c (registers now id a) = (register_node c now id a).0
call c (beats now id) = (record_heartbeat c now id).0
call c (evicts now) = (evict_stale_nodes c now).0
call c (removes id) = (remove_node c id).0

unfoldable pub run : MasterCoordinator → List Call → MasterCoordinator
unfolding call
run c [] = c
run c (x ∷ xs) = run (call c x) xs

-- Good after a call, and at most one node more.
Stays : MasterCoordinator → MasterCoordinator → Type 0
Stays c c' = IsCoordinator c' × (length c'.nodes ≤ length c.nodes + 1)

register_node-Stays :
    (c : MasterCoordinator) (now id a : ℕ)
    → length c.nodes + 1 < u64_mod
    → IsCoordinator c
    → Stays c (register_node c now id a).0
unfolding register_node Stays
register_node-Stays c now id a small h = elim (Option-cases (lookup id c.nodes)) [
  | inr (d, e) ↦ rw (e, register_node) (h, omega arith)
  | inl e ↦
      rw (e, register_node)
        (
          record {
            distinct = (e, h.distinct);
            active = (refl, h.active);
            counted = ground (arith, h.counted, small);
          },
          omega arith,
        )
]

record_heartbeat-Stays :
    (c : MasterCoordinator) (now id : ℕ) → IsCoordinator c → Stays c (record_heartbeat c now id).0
unfolding record_heartbeat Stays
record_heartbeat-Stays c now id h = elim (Option-cases (lookup id c.nodes)) [
  | inl e ↦ rw (e, record_heartbeat) (h, omega arith)
  | inr (d, e) ↦
      let size = length-beat id now c.nodes in
      rw (e, record_heartbeat)
        (
          record {
            distinct = IsDistinct-beat id now c.nodes h.distinct;
            active = AllActive-beat id now c.nodes h.active;
            counted = ground (arith, h.counted, size, active_lookup id c.nodes d e h.active);
          },
          omega (arith, size),
        )
]

remove_node-Stays :
    (c : MasterCoordinator) (id : ℕ)
    → length c.nodes < u64_mod
    → IsCoordinator c
    → Stays c (remove_node c id).0
unfolding remove_node Stays
remove_node-Stays c id small h = elim (Option-cases (lookup id c.nodes)) [
  | inl e ↦ rw (e, remove_node) (h, omega arith)
  | inr (d, e) ↦
      let gone = delete-some id c.nodes d e h.active in
      rw (e, remove_node)
        (
          record {
            distinct = IsDistinct-delete id c.nodes h.distinct;
            active = AllActive-delete id c.nodes h.active;
            counted = ground (arith, h.counted, gone, small);
          },
          omega (arith, gone.0),
        )
]

evict_stale_nodes-Stays :
    (c : MasterCoordinator) (now : ℕ)
    → length c.nodes < u64_mod
    → IsCoordinator c
    → Stays c (evict_stale_nodes c now).0
unfolding Stays
evict_stale_nodes-Stays c now small h =
    let size = length-keep c.heartbeat_timeout_ms now c.nodes in
    (
      evict_stale_nodes-IsCoordinator c now small h,
      omega (arith, size, ap length (evict_stale_nodes_nodes c now h)),
    )

call-Stays :
    (c : MasterCoordinator) (x : Call)
    → length c.nodes + 1 < u64_mod
    → IsCoordinator c
    → Stays c (call c x)
unfolding call
call-Stays c (registers now id a) small h = register_node-Stays c now id a small h
call-Stays c (beats now id) small h = record_heartbeat-Stays c now id h
call-Stays c (evicts now) small h = evict_stale_nodes-Stays c now (omega (arith, small)) h
call-Stays c (removes id) small h = remove_node-Stays c id (omega (arith, small)) h

run-IsCoordinator :
    (c : MasterCoordinator) (xs : List Call)
    → length c.nodes + length xs < u64_mod
    → IsCoordinator c
    → IsCoordinator (run c xs)
unfolding run Stays
run-IsCoordinator c [] small h = h
run-IsCoordinator c (x ∷ xs) small h =
    let one = call-Stays c x (omega (arith, small)) h in
    run-IsCoordinator (call c x) xs (omega (arith, small, one.1)) one.0

-- An answer names no node that is not active.
abbrev pub IsActive : Result MasterError NodeDescriptor → Type 0
IsActive (err e) = Unit
IsActive (ok n) = n.is_active ≡ true

get_node-IsActive : (c : MasterCoordinator) (id : ℕ) → IsCoordinator c → IsActive (get_node c id)
unfolding get_node
get_node-IsActive c id h = elim (Option-cases (lookup id c.nodes)) [
  | inl e ↦ ground (arith, e)
  | inr (d, e) ↦ ground (arith, e, active_lookup id c.nodes d e h.active)
]

-- After any calls on a new coordinator the count of active nodes is the number of nodes it knows, and a node
-- that it knows is active.
pub active_node_count-run :
    (timeout : ℕ) (xs : List Call) (id : ℕ)
    → length xs < u64_mod
    → let c = run (new timeout) xs in
      (active_node_count c ≡ length c.nodes) × IsActive (get_node c id)
unfolding new active_node_count
active_node_count-run timeout xs id small =
    let c = run (new timeout) xs in
    let h =
      run-IsCoordinator (new timeout) xs (omega (arith, small))
        (record { distinct = tt; active = tt; counted = refl }) in
    (h.counted, get_node-IsActive c id h)

-- An eviction removes exactly the nodes whose last heartbeat is longer ago than the timeout, returns exactly
-- their identifiers, leaves every other node as it was, and lowers the count by their number.
pub evict_stale_nodes_lem :
    (c : MasterCoordinator) (now id : ℕ)
    → IsCoordinator c
    → length c.nodes < u64_mod
    → let (c', ids) = evict_stale_nodes c now in
      (get_node c' id ≡ (if stale_node c now id then err (node_not_found id) else get_node c id))
      × (member id ids ≡ stale_node c now id)
      × (active_node_count c' + length ids ≡ active_node_count c)
unfolding get_node active_node_count evict_stale_nodes
evict_stale_nodes_lem c now id h small =
    let timeout = c.heartbeat_timeout_ms in
    let nodes = evict_stale_nodes_nodes c now h in
    let found = ap (lookup id) nodes ∙ lookup-keep timeout now id c.nodes h.distinct in
    let size = length-keep timeout now c.nodes in
    let after = evict_stale_nodes-IsCoordinator c now small h in
    (
      ground (arith, found),
      member-stale_ids timeout now id c.nodes h.distinct,
      omega (arith, h.counted, size, after.counted, ap length nodes),
    )
