-- ===== src/Scheduler/Placement.antt =====
-- Which node src/master/src/scheduler.rs places an allocation on, and what that does to the registry.
use virthub.Common.{
  ℕ, zero, suc, ◌+◌, ◌%◌, ◌≤◌, ◌<◌, ◌≡◌, ◌⊎◌, inl, inr, refl, true, false, Option, some, List, [],
  ◌∷◌, if◌then◌else◌, ◌==◌, length, get_elem?, All, In, subst, arith, Bool-cases,
}
use native.Mathlib.Nat.{mod-lt}
use virthub.Common.Word.{add64, u64_mod}
use virthub.Common.Float.{Float}
use virthub.Common.Result.{Result, ok, err}
use virthub.Scheduler.{
  SchedulingPolicy, least_loaded, round_robin, numa_affinity, SchedulerError, no_node_available,
  NodeResourceCapacity, available_memory_bytes, PlacementDecision, is_candidate, candidates,
  modify_node, ClusterScheduler, load_ratio, min_by_load, select, advanced, decision, reserve,
  schedule_allocation,
}

-- No node is registered under the identifier.
abbrev pub IsFree : ℕ → List NodeResourceCapacity → Type 0
IsFree id [] = Unit
IsFree id (n ∷ ns) = ((n.node_id == id) ≡ false) × IsFree id ns

-- A node's allocations are inside its memory, a u64.
abbrev pub IsNode : NodeResourceCapacity → Type 0
IsNode n = (n.allocated_memory_bytes ≤ n.total_memory_bytes) × (n.total_memory_bytes < u64_mod)

-- Each identifier is registered once, and no node is over-committed.
abbrev pub IsRegistry : List NodeResourceCapacity → Type 0
IsRegistry [] = Unit
IsRegistry (n ∷ ns) = IsFree n.node_id ns × IsNode n × IsRegistry ns

-- The registry with `size` bytes more on one node.
abbrev pub allocated_on : ℕ → ℕ → List NodeResourceCapacity → List NodeResourceCapacity
allocated_on id size [] = []
allocated_on id size (n ∷ ns) =
    (if n.node_id == id
      then record n { allocated_memory_bytes = n.allocated_memory_bytes + size }
      else n)
    ∷ allocated_on id size ns

pub allocated_on-IsFree :
    (id size : ℕ) (ns : List NodeResourceCapacity) → IsFree id ns → allocated_on id size ns ≡ ns
allocated_on-IsFree id size [] h = refl
allocated_on-IsFree id size (n ∷ ns) h = ground (arith, h, allocated_on-IsFree id size ns)

pub IsFree-In :
    (id : ℕ) (n : NodeResourceCapacity) (ns : List NodeResourceCapacity)
    → IsFree id ns
    → In n ns
    → (n.node_id == id) ≡ false
IsFree-In id n [] h m = absurd m
IsFree-In id n (x ∷ ns) h (inl e) = subst (λ y. (y.node_id == id) ≡ false) e h.0
IsFree-In id n (x ∷ ns) h (inr m) = IsFree-In id n ns h.1 m

-- On a candidate the counter's sum does not wrap.
reserve_head :
    (x : NodeResourceCapacity) (ns : List NodeResourceCapacity) (size : ℕ) (hint : Option ℕ)
    → IsRegistry (x ∷ ns)
    → is_candidate x size hint ≡ true
    → modify_node (x ∷ ns) x.node_id (λ a. add64 a size)
      ≡ (allocated_on x.node_id size (x ∷ ns), true)
unfolding modify_node is_candidate available_memory_bytes
reserve_head x ns size hint h c = ground (arith, h, c, allocated_on-IsFree x.node_id size ns h.0)

reserve_on :
    (n : NodeResourceCapacity) (ns : List NodeResourceCapacity) (size : ℕ) (hint : Option ℕ)
    → IsRegistry ns
    → In n ns
    → is_candidate n size hint ≡ true
    → modify_node ns n.node_id (λ a. add64 a size) ≡ (allocated_on n.node_id size ns, true)
unfolding modify_node
reserve_on n [] size hint h m c = absurd m
reserve_on n (x ∷ ns) size hint h (inl e) c =
    subst
      (λ y.
        is_candidate y size hint ≡ true
        → modify_node (x ∷ ns) y.node_id (λ a. add64 a size)
          ≡ (allocated_on y.node_id size (x ∷ ns), true))
      e (reserve_head x ns size hint h) c
reserve_on n (x ∷ ns) size hint h (inr m) c =
    let rest = reserve_on n ns size hint h.2 m c in
    let other = IsFree-In x.node_id n ns h.0 m in ground (arith, rest, other)

All-map :
    (P Q : NodeResourceCapacity → Type 0)
    → ((n : NodeResourceCapacity) → P n → Q n)
    → (ns : List NodeResourceCapacity) → All P ns
    → All Q ns
All-map P Q f [] h = tt
All-map P Q f (n ∷ ns) h = (f n h.0, All-map P Q f ns h.1)

candidates-All :
    (P : NodeResourceCapacity → Type 0) (ns : List NodeResourceCapacity) (size : ℕ)
    (hint : Option ℕ)
    → All (λ n. is_candidate n size hint ≡ true → P n) ns
    → All P (candidates ns size hint)
unfolding candidates
candidates-All P [] size hint h = tt
candidates-All P (n ∷ ns) size hint h = elim (Bool-cases (is_candidate n size hint)) [
  | inl e ↦ ground (arith, e, h, candidates-All P ns size hint h.1)
  | inr e ↦ ground (arith, e, candidates-All P ns size hint h.1)
]

candidates-nil :
    (ns : List NodeResourceCapacity) (size : ℕ) (hint : Option ℕ)
    → candidates ns size hint ≡ []
    → All (λ n. is_candidate n size hint ≡ false) ns
unfolding candidates
candidates-nil [] size hint h = tt
candidates-nil (n ∷ ns) size hint h = ground (arith, h, candidates-nil ns size hint)

-- The selection takes one of the candidates, whatever the policy.
pub min_by_load-All :
    (F : Float) (P : NodeResourceCapacity → Type 0) (best : NodeResourceCapacity)
    (ns : List NodeResourceCapacity)
    → P best
    → All P ns
    → P (min_by_load F best ns)
unfolding min_by_load
min_by_load-All F P best [] h a = h
min_by_load-All F P best (n ∷ ns) h a =
    elim (Bool-cases (F.lt (load_ratio F n) (load_ratio F best))) [
      | inl e ↦ rw e (min_by_load-All F P n ns a.0 a.1)
      | inr e ↦ rw e (min_by_load-All F P best ns h a.1)
    ]

get_elem?-All :
    (P : NodeResourceCapacity → Type 0) (ns : List NodeResourceCapacity) (i : ℕ)
    → i < length ns
    → All P ns
    → (n : NodeResourceCapacity) × (get_elem? ns i ≡ some n) × P n
get_elem?-All P [] i h a = absurd (omega arith)
get_elem?-All P (n ∷ ns) zero h a = (n, refl, a.0)
get_elem?-All P (n ∷ ns) (suc i) h a = get_elem?-All P ns i (omega arith) a.1

select-All :
    (F : Float) (P : NodeResourceCapacity → Type 0) (policy : SchedulingPolicy) (i : ℕ)
    (c : NodeResourceCapacity) (cs : List NodeResourceCapacity)
    → All P (c ∷ cs)
    → (n : NodeResourceCapacity) × (select F policy i c cs ≡ some n) × P n
unfolding select
select-All F P least_loaded i c cs h = (min_by_load F c cs, refl, min_by_load-All F P c cs h.0 h.1)
select-All F P round_robin i c cs h =
    get_elem?-All P (c ∷ cs) (i % length (c ∷ cs)) (mod-lt i (omega arith)) h
select-All F P numa_affinity i c cs h = (c, refl, h.0)

-- What `schedule_allocation` may come to.
abbrev pub Placed :
    (F : Float)
    → ClusterScheduler F
    → ℕ
    → Option ℕ
    → Option (ClusterScheduler F × Result SchedulerError PlacementDecision)
    → Type 0
Placed F s size hint out =
    (All (λ n. is_candidate n size hint ≡ false) s.nodes
      × (out ≡ some (s, err (no_node_available size))))
    ⊎ ((n : NodeResourceCapacity) × In n s.nodes
        × (is_candidate n size hint ≡ true)
        × (out
            ≡ some (
              record s {
                nodes = allocated_on n.node_id size s.nodes;
                next_rr_index = advanced F s;
              },
              ok (decision F s size hint n.node_id),
            )))

All-here : (ns : List NodeResourceCapacity) → All (λ n. In n ns) ns
All-here [] = tt
All-here (n ∷ ns) =
    (inl refl, All-map (λ m. In m ns) (λ m. In m (n ∷ ns)) (λ m i. inr i) ns (All-here ns))

pub reserve_lem :
    (F : Float) (s : ClusterScheduler F) (size : ℕ) (hint : Option ℕ) (n : NodeResourceCapacity)
    → IsRegistry s.nodes
    → 0 < s.config.shard_count
    → In n s.nodes
    → is_candidate n size hint ≡ true
    → reserve F s size hint n.node_id
      ≡ some (
        record s { nodes = allocated_on n.node_id size s.nodes; next_rr_index = advanced F s },
        ok (decision F s size hint n.node_id),
      )
unfolding reserve
reserve_lem F s size hint n h p m c = ground (arith, p, reserve_on n s.nodes size hint h m c)

abbrev pub IsChoice : List NodeResourceCapacity → ℕ → Option ℕ → NodeResourceCapacity → Type 0
IsChoice ns size hint n = In n ns × (is_candidate n size hint ≡ true)

pub candidates-IsChoice :
    (ns : List NodeResourceCapacity) (size : ℕ) (hint : Option ℕ)
    → All (IsChoice ns size hint) (candidates ns size hint)
candidates-IsChoice ns size hint = candidates-All (IsChoice ns size hint) ns size hint (
    All-map (λ n. In n ns) (λ n. is_candidate n size hint ≡ true → IsChoice ns size hint n)
      (λ n i c. (i, c)) ns (All-here ns))

candidates-Placed :
    (F : Float) (s : ClusterScheduler F) (size : ℕ) (hint : Option ℕ)
    (cs : List NodeResourceCapacity)
    → IsRegistry s.nodes
    → 0 < s.config.shard_count
    → candidates s.nodes size hint ≡ cs
    → Placed F s size hint (schedule_allocation F s size hint)
unfolding schedule_allocation
candidates-Placed F s size hint [] h p e =
    inl (candidates-nil s.nodes size hint e, ground (arith, e))
candidates-Placed F s size hint (c ∷ cs) h p e =
    let choices =
      subst (All (IsChoice s.nodes size hint)) e (candidates-IsChoice s.nodes size hint) in
    let (n, sel, choice) =
      select-All F (IsChoice s.nodes size hint) s.policy s.next_rr_index c cs choices in
    let done = reserve_lem F s size hint n h p choice.0 choice.1 in
    inr (n, choice.0, choice.1, ground (arith, e, sel, done))

-- With a positive shard count and a registry in order, an allocation always returns. It fails
-- without an effect when no node is online with room for it and the NUMA node asked for; otherwise
-- it takes such a node, adds the size to the allocations of that node and of no other, and returns
-- its placement.
pub schedule_allocation-Placed :
    (F : Float) (s : ClusterScheduler F) (size : ℕ) (hint : Option ℕ)
    → IsRegistry s.nodes
    → 0 < s.config.shard_count
    → Placed F s size hint (schedule_allocation F s size hint)
schedule_allocation-Placed F s size hint h p =
    candidates-Placed F s size hint (candidates s.nodes size hint) h p refl
