-- ===== src/Scheduler/Registry.antt =====
-- The registry of src/master/src/scheduler.rs over sequences of calls.
use virthub.Common.{
  ℕ, ◌+◌, ◌-◌, ◌≤◌, ◌<◌, ◌≡◌, inl, inr, refl, true, Option, none, some, List, [], ◌∷◌,
  if◌then◌else◌, leb, ◌==◌, All, In, arith, subst, Bool-cases,
}
use virthub.Common.Float.{Float}
use virthub.Common.Result.{Result}
use virthub.Scheduler.{
  NodeResourceCapacity, SchedulerError, PlacementDecision, available_memory_bytes, is_candidate,
  modify_node, remove_node, ClusterScheduler, register_node, unregister_node, schedule_allocation,
  release_allocation,
}
use virthub.Scheduler.Placement.{
  IsFree, IsFree-In, IsNode, IsRegistry, allocated_on, schedule_allocation-Placed,
}

IsFree-remove_node :
    (id j : ℕ) (ns : List NodeResourceCapacity) → IsFree id ns → IsFree id (remove_node ns j)
unfolding remove_node
IsFree-remove_node id j [] h = tt
IsFree-remove_node id j (n ∷ ns) h = ground (arith, h, IsFree-remove_node id j ns h.1)

remove_node-IsFree :
    (id : ℕ) (ns : List NodeResourceCapacity) → IsRegistry ns → IsFree id (remove_node ns id)
unfolding remove_node
remove_node-IsFree id [] h = tt
remove_node-IsFree id (n ∷ ns) h = elim (Bool-cases (n.node_id == id)) [
  | inl e ↦
      let same : n.node_id ≡ id = ground (arith, e) in rw e (subst (λ i. IsFree i ns) same h.0)
  | inr e ↦ ground (arith, e, remove_node-IsFree id ns h.2)
]

remove_node-IsRegistry :
    (id : ℕ) (ns : List NodeResourceCapacity) → IsRegistry ns → IsRegistry (remove_node ns id)
unfolding remove_node
remove_node-IsRegistry id [] h = tt
remove_node-IsRegistry id (n ∷ ns) h =
    ground (arith, h, remove_node-IsRegistry id ns h.2, IsFree-remove_node n.node_id id ns h.0)

IsFree-modify_node :
    (id j : ℕ) (f : ℕ → ℕ) (ns : List NodeResourceCapacity)
    → IsFree id ns
    → IsFree id (modify_node ns j f).0
unfolding modify_node
IsFree-modify_node id j f [] h = tt
IsFree-modify_node id j f (n ∷ ns) h = ground (arith, h, IsFree-modify_node id j f ns h.1)

release-IsRegistry :
    (id size : ℕ) (ns : List NodeResourceCapacity)
    → IsRegistry ns
    → IsRegistry (modify_node ns id (λ a. if leb size a then a - size else 0)).0
unfolding modify_node
release-IsRegistry id size [] h = tt
release-IsRegistry id size (n ∷ ns) h = ground (
  arith,
  h,
  release-IsRegistry id size ns h.2,
  IsFree-modify_node n.node_id id (λ a. if leb size a then a - size else 0) ns h.0,
)

IsFree-allocated_on :
    (id j size : ℕ) (ns : List NodeResourceCapacity)
    → IsFree id ns
    → IsFree id (allocated_on j size ns)
IsFree-allocated_on id j size [] h = tt
IsFree-allocated_on id j size (n ∷ ns) h = ground (arith, h, IsFree-allocated_on id j size ns h.1)

-- The nodes registered under an identifier have room for `size` bytes more.
abbrev HasRoom : ℕ → ℕ → List NodeResourceCapacity → Type 0
HasRoom id size [] = Unit
HasRoom id size (n ∷ ns) =
    (n.node_id ≡ id → n.allocated_memory_bytes + size ≤ n.total_memory_bytes) × HasRoom id size ns

allocated_on-IsRegistry :
    (id size : ℕ) (ns : List NodeResourceCapacity)
    → IsRegistry ns
    → HasRoom id size ns
    → IsRegistry (allocated_on id size ns)
allocated_on-IsRegistry id size [] h r = tt
allocated_on-IsRegistry id size (n ∷ ns) h r = ground (
  arith,
  h,
  r.0,
  allocated_on-IsRegistry id size ns h.2 r.1,
  IsFree-allocated_on n.node_id id size ns h.0,
)

HasRoom-IsFree : (id size : ℕ) (ns : List NodeResourceCapacity) → IsFree id ns → HasRoom id size ns
HasRoom-IsFree id size [] h = tt
HasRoom-IsFree id size (n ∷ ns) h =
    ((λ e. absurd (ground (arith, h.0, e))), HasRoom-IsFree id size ns h.1)

candidate-HasRoom :
    (n : NodeResourceCapacity) (ns : List NodeResourceCapacity) (size : ℕ) (hint : Option ℕ)
    → IsRegistry ns
    → In n ns
    → is_candidate n size hint ≡ true
    → HasRoom n.node_id size ns
unfolding is_candidate available_memory_bytes
candidate-HasRoom n [] size hint h m c = absurd m
candidate-HasRoom n (x ∷ ns) size hint h (inl e) c =
    subst (λ y. is_candidate y size hint ≡ true → HasRoom y.node_id size (x ∷ ns)) e
      ((λ k. ((λ z. ground (arith, h, k)), HasRoom-IsFree x.node_id size ns h.0))) c
candidate-HasRoom n (x ∷ ns) size hint h (inr m) c =
    let other = IsFree-In x.node_id n ns h.0 m in
    ((λ z. absurd (ground (arith, other, z))), candidate-HasRoom n ns size hint h.2 m c)

-- Calls on a scheduler, one after another; `none` is a panic.
pub data Call : Type 0 where
  registers : NodeResourceCapacity → Call
  unregisters : ℕ → Call
  schedules : ℕ → Option ℕ → Call
  frees : (node_id size : ℕ) → Call

module _ (F : Float) where
  unfoldable pub run : ClusterScheduler F → List Call → Option (ClusterScheduler F)
  run s [] = some s
  run s (registers n ∷ cs) = run (register_node F s n) cs
  run s (unregisters id ∷ cs) = run (unregister_node F s id) cs
  run s (schedules size hint ∷ cs) = elim (schedule_allocation F s size hint) [
    | none ↦ none
    | some p ↦ run p.0 cs
  ]
  run s (frees id size ∷ cs) = run (release_allocation F s id size) cs

-- The nodes that a call registers are themselves in order.
abbrev pub IsValid : Call → Type 0
IsValid (registers n) = IsNode n
IsValid _ = Unit

placed-IsRegistry :
    (F : Float) (s : ClusterScheduler F) (size : ℕ) (hint : Option ℕ)
    → IsRegistry s.nodes
    → 0 < s.config.shard_count
    → (out : ClusterScheduler F × Result SchedulerError PlacementDecision) × (schedule_allocation F
          s size hint
        ≡ some out)
      × IsRegistry out.0.nodes
      × (out.0.config.shard_count ≡ s.config.shard_count)
placed-IsRegistry F s size hint h p = elim (schedule_allocation-Placed F s size hint h p) [
  | inl (z, e) ↦ (_, e, h, refl)
  | inr (n, m, c, e) ↦ (
    _,
    e,
    allocated_on-IsRegistry n.node_id size s.nodes h (candidate-HasRoom n s.nodes size hint h m c),
    refl,
  )
]

-- From a registry in order, whatever calls follow, no call panics, each identifier stays registered
-- once, and no node is ever allocated more than its memory, provided that the shard count is
-- positive and that the nodes registered come with allocations inside their memory.
pub run-IsRegistry :
    (F : Float) (s : ClusterScheduler F) (calls : List Call)
    → IsRegistry s.nodes
    → 0 < s.config.shard_count
    → All IsValid calls
    → (s' : ClusterScheduler F) × (run F s calls ≡ some s') × IsRegistry s'.nodes
unfolding run register_node unregister_node release_allocation
run-IsRegistry F s [] h p v = (s, refl, h)
run-IsRegistry F s (registers n ∷ cs) h p v =
    run-IsRegistry F (register_node F s n) cs
      (remove_node-IsFree n.node_id s.nodes h, v.0, remove_node-IsRegistry n.node_id s.nodes h) p
      v.1
run-IsRegistry F s (unregisters id ∷ cs) h p v =
    run-IsRegistry F (unregister_node F s id) cs (remove_node-IsRegistry id s.nodes h) p v.1
run-IsRegistry F s (schedules size hint ∷ cs) h p v =
    let (out, e, kept, same) = placed-IsRegistry F s size hint h p in
    let (s', done, after) = run-IsRegistry F out.0 cs kept (ground (arith, p, same)) v.1 in
    (s', ground (arith, e, done), after)
run-IsRegistry F s (frees id size ∷ cs) h p v =
    run-IsRegistry F (release_allocation F s id size) cs (release-IsRegistry id size s.nodes h) p
      v.1
