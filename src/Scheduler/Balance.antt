-- ===== src/Scheduler/Balance.antt =====
-- The least-loaded policy of src/master/src/scheduler.rs, and the release of an allocation.
use virthub.Common.{
  ℕ, ◌-◌, ◌<◌, ◌≡◌, inl, inr, refl, sym, subst, ◌∙◌, Bool, true, false, Option, some, List, [], ◌∷◌,
  if◌then◌else◌, leb, ◌==◌, All, In, arith, Bool-cases,
}
use virthub.Common.Float.{Float}
use virthub.Common.Result.{ok}
use virthub.Scheduler.{
  NodeResourceCapacity, is_candidate, candidates, modify_node, ClusterScheduler, least_loaded,
  load_ratio, min_by_load, select, schedule_allocation, release_allocation, PlacementDecision,
  decision, advanced,
}
use virthub.Scheduler.Placement.{
  IsFree, IsRegistry, IsChoice, allocated_on, allocated_on-IsFree, candidates-IsChoice,
  min_by_load-All, reserve_lem, schedule_allocation-Placed,
}

-- No entry of the list carries less load than the node.
abbrev pub IsLeast : (F : Float) → NodeResourceCapacity → List NodeResourceCapacity → Type 0
IsLeast F n ns = All (λ m. F.lt (load_ratio F m) (load_ratio F n) ≡ false) ns

IsLeast-below :
    (F : Float) (n best : NodeResourceCapacity) (seen : List NodeResourceCapacity)
    → F.lt (load_ratio F n) (load_ratio F best) ≡ true
    → IsLeast F best seen
    → IsLeast F n seen
IsLeast-below F n best [] e h = tt
IsLeast-below F n best (m ∷ ms) e h =
    let below = F.lt_trans (load_ratio F m) (load_ratio F n) (load_ratio F best) in
    (ground (arith, e, h.0, below), IsLeast-below F n best ms e h.1)

min_by_load-IsLeast :
    (F : Float) (best : NodeResourceCapacity) (ns seen : List NodeResourceCapacity)
    → IsLeast F best seen
    → IsLeast F (min_by_load F best ns) seen × IsLeast F (min_by_load F best ns) ns
unfolding min_by_load
min_by_load-IsLeast F best [] seen h = (h, tt)
min_by_load-IsLeast F best (n ∷ ns) seen h =
    let kept_by : Bool → Type 0 = λ b.
      let m = min_by_load F (if b then n else best) ns in IsLeast F m seen × IsLeast F m (n ∷ ns) in
    elim (Bool-cases (F.lt (load_ratio F n) (load_ratio F best))) [
      | inl e ↦
          let kept : IsLeast F n (n ∷ seen) =
            (F.lt_irrefl (load_ratio F n), IsLeast-below F n best seen e h) in
          let rest = min_by_load-IsLeast F n ns (n ∷ seen) kept in
          subst kept_by (sym e) (rest.0.1, (rest.0.0, rest.1))
      | inr e ↦
          let rest = min_by_load-IsLeast F best ns (n ∷ seen) (e, h) in
          subst kept_by (sym e) (rest.0.1, (rest.0.0, rest.1))
    ]

-- Under the least-loaded policy, with a candidate at hand, a positive shard count and a registry in
-- order, an allocation is placed on a registered node that passes the candidate test for its size
-- and NUMA hint, is alone charged, and carries no more load than any candidate.
pub schedule_allocation-IsLeast :
    (F : Float) (s : ClusterScheduler F) (size : ℕ) (hint : Option ℕ) (c : NodeResourceCapacity)
    (cs : List NodeResourceCapacity)
    → IsRegistry s.nodes
    → 0 < s.config.shard_count
    → s.policy ≡ least_loaded
    → candidates s.nodes size hint ≡ c ∷ cs
    → (n : NodeResourceCapacity) × In n s.nodes
      × (is_candidate n size hint ≡ true)
      × (schedule_allocation F s size hint
          ≡ some (
            record s { nodes = allocated_on n.node_id size s.nodes },
            ok (decision F s size hint n.node_id),
          ))
      × IsLeast F n (c ∷ cs)
unfolding schedule_allocation select advanced
schedule_allocation-IsLeast F s size hint c cs h p l e =
    let n = min_by_load F c cs in
    let choices =
      subst (All (IsChoice s.nodes size hint)) e (candidates-IsChoice s.nodes size hint) in
    let choice = min_by_load-All F (IsChoice s.nodes size hint) c cs choices.0 choices.1 in
    let done = reserve_lem F s size hint n h p choice.0 choice.1 in
    let start : IsLeast F c (c ∷ []) = (F.lt_irrefl (load_ratio F c), tt) in
    let least = min_by_load-IsLeast F c cs (c ∷ []) start in
    (n, choice.0, choice.1, ground (arith, e, l, done), (least.0.0, least.1))

release-allocated_on :
    (id size : ℕ) (ns : List NodeResourceCapacity)
    → IsRegistry ns
    → (modify_node (allocated_on id size ns) id (λ a. if leb size a then a - size else 0)).0 ≡ ns
unfolding modify_node
release-allocated_on id size [] h = refl
release-allocated_on id size (n ∷ ns) h = elim (Bool-cases (n.node_id == id)) [
  | inl e ↦
      let same : n.node_id ≡ id = ground (arith, e) in
      let others = allocated_on-IsFree id size ns (subst (λ i. IsFree i ns) same h.0) in
      ground (arith, e, others)
  | inr e ↦ ground (arith, e, release-allocated_on id size ns h.2)
]

-- Releasing an allocation right after it succeeded restores the registry, with a positive shard
-- count and a registry in order.
pub release_allocation-schedule_allocation :
    (F : Float) (s s' : ClusterScheduler F) (size : ℕ) (hint : Option ℕ) (d : PlacementDecision)
    → IsRegistry s.nodes
    → 0 < s.config.shard_count
    → schedule_allocation F s size hint ≡ some (s', ok d)
    → (release_allocation F s' d.selected_node_id size).nodes ≡ s.nodes
unfolding release_allocation
release_allocation-schedule_allocation F s s' size hint d h p e =
    elim (schedule_allocation-Placed F s size hint h p) [
      | inl (z, f) ↦ absurd (ground (arith, sym e ∙ f))
      | inr (n, m, c, f) ↦
          unfold decision in
          ground (arith, sym e ∙ f, release-allocated_on n.node_id size s.nodes h)
    ]
