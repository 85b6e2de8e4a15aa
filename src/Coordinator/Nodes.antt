-- ===== src/Coordinator/Nodes.antt =====
-- The list of nodes of src/master/src/coordinator.rs: what eviction, removal and heartbeats leave of it.
use virthub.Common.{
  ℕ, ◌+◌, ◌<◌, ◌≡◌, refl, sym, ap, subst, ◌∙◌, Bool, true, false, ◌||◌, none, some, List, [], ◌∷◌,
  if◌then◌else◌, ◌==◌, length, All, arith, Bool-cases, inl, inr,
}
use virthub.Common.Word.{u64_mod}
use virthub.Coordinator.{
  MasterCoordinator, NodeDescriptor, lookup, delete, modify, is_stale, stale_ids, deactivate_all,
  delete_all, evict_stale_nodes,
}

-- No identifier stands twice.
abbrev pub IsDistinct : List NodeDescriptor → Type 0
IsDistinct [] = Unit
IsDistinct (n ∷ ns) = (lookup n.node_id ns ≡ none) × IsDistinct ns

abbrev pub Avoids : ℕ → List ℕ → Type 0
Avoids id ids = All (λ j. (id == j) ≡ false) ids

abbrev pub keep : (timeout now : ℕ) → List NodeDescriptor → List NodeDescriptor
keep timeout now [] = []
keep timeout now (n ∷ ns) =
    if is_stale timeout now n then keep timeout now ns else n ∷ keep timeout now ns

abbrev pub member : ℕ → List ℕ → Bool
member id [] = false
member id (j ∷ js) = j == id || member id js

pub stale_ids-Avoids :
    (timeout now id : ℕ) (ns : List NodeDescriptor)
    → lookup id ns ≡ none
    → Avoids id (stale_ids timeout now ns)
unfolding stale_ids
stale_ids-Avoids timeout now id [] h = tt
stale_ids-Avoids timeout now id (n ∷ ns) h =
    let other : (n.node_id == id) ≡ false = ground (arith, h) in
    let rest = stale_ids-Avoids timeout now id ns (ground (arith, h, other)) in
    elim (Bool-cases (is_stale timeout now n)) [
      | inl s ↦ rw s (ground (arith, other), rest)
      | inr f ↦ rw f rest
    ]

pub deactivate_all_skips :
    (n : NodeDescriptor) (ids : List ℕ) (ns : List NodeDescriptor)
    → Avoids n.node_id ids
    → deactivate_all ids (n ∷ ns) ≡ n ∷ deactivate_all ids ns
unfolding deactivate_all
deactivate_all_skips n [] ns h = refl
deactivate_all_skips n (id ∷ ids) ns h =
    rw (h.0) (deactivate_all_skips n ids (modify id (λ n. record n { is_active = false }) ns) h.1)

pub delete_all_skips :
    (n : NodeDescriptor) (ids : List ℕ) (ns : List NodeDescriptor)
    → Avoids n.node_id ids
    → delete_all ids (n ∷ ns) ≡ n ∷ delete_all ids ns
unfolding delete_all
delete_all_skips n [] ns h = refl
delete_all_skips n (id ∷ ids) ns h = rw (h.0) (delete_all_skips n ids (delete id ns) h.1)

pub modify_self :
    (n : NodeDescriptor) (f : NodeDescriptor → NodeDescriptor) (ns : List NodeDescriptor)
    → modify n.node_id f (n ∷ ns) ≡ f n ∷ ns
modify_self n f ns = ground arith

pub delete_self : (n : NodeDescriptor) (ns : List NodeDescriptor) → delete n.node_id (n ∷ ns) ≡ ns
delete_self n ns = ground arith

-- The two loops over the stale identifiers leave the nodes that are not stale.
pub delete_all-keep :
    (timeout now : ℕ) (ns : List NodeDescriptor)
    → IsDistinct ns
    → let ids = stale_ids timeout now ns in
      delete_all ids (deactivate_all ids ns) ≡ keep timeout now ns
unfolding stale_ids deactivate_all delete_all
delete_all-keep timeout now [] h = refl
delete_all-keep timeout now (n ∷ ns) h =
    let ids = stale_ids timeout now ns in
    let avoids = stale_ids-Avoids timeout now n.node_id ns h.0 in
    let rest = delete_all-keep timeout now ns h.1 in
    elim (Bool-cases (is_stale timeout now n)) [
      | inl s ↦
          let n' : NodeDescriptor = record n { is_active = false } in
          rw s (
            ap (λ l. delete_all ids (delete n.node_id (deactivate_all ids l)))
              (modify_self n (λ m. record m { is_active = false }) ns)
            ∙ ap (λ l. delete_all ids (delete n.node_id l)) (deactivate_all_skips n' ids ns avoids)
            ∙ ap (delete_all ids) (delete_self n' (deactivate_all ids ns))
            ∙ rest)
      | inr f ↦
          rw
            (
              f,
              deactivate_all_skips n ids ns avoids,
              delete_all_skips n ids (deactivate_all ids ns) avoids,
            )
            (ap (◌∷◌ n) rest)
    ]

pub lookup-keep :
    (timeout now id : ℕ) (ns : List NodeDescriptor)
    → IsDistinct ns
    → lookup id (keep timeout now ns) ≡ elim (lookup id ns) [
      | none ↦ none
      | some n ↦ if is_stale timeout now n then none else some n
    ]
lookup-keep timeout now id [] h = refl
lookup-keep timeout now id (n ∷ ns) h =
    let rest = lookup-keep timeout now id ns h.1 in
    elim (Bool-cases (n.node_id == id)) [
      | inr other ↦ ground (arith, other, rest)
      | inl same ↦
          let here : n.node_id ≡ id = ground (arith, same) in
          let gone : lookup id ns ≡ none = subst (λ j. lookup j ns ≡ none) here h.0 in
          ground (arith, same, rest, gone)
    ]

pub IsDistinct-keep :
    (timeout now : ℕ) (ns : List NodeDescriptor) → IsDistinct ns → IsDistinct (keep timeout now ns)
IsDistinct-keep timeout now [] h = tt
IsDistinct-keep timeout now (n ∷ ns) h =
    ground
      (arith, h.0, lookup-keep timeout now n.node_id ns h.1, IsDistinct-keep timeout now ns h.1)

pub length-keep :
    (timeout now : ℕ) (ns : List NodeDescriptor)
    → length (keep timeout now ns) + length (stale_ids timeout now ns) ≡ length ns
unfolding stale_ids
length-keep timeout now [] = omega arith
length-keep timeout now (n ∷ ns) = ground (arith, length-keep timeout now ns)

abbrev pub AllActive : List NodeDescriptor → Type 0
AllActive ns = All (λ n. n.is_active ≡ true) ns

pub AllActive-keep :
    (timeout now : ℕ) (ns : List NodeDescriptor) → AllActive ns → AllActive (keep timeout now ns)
AllActive-keep timeout now [] h = tt
AllActive-keep timeout now (n ∷ ns) h = ground (arith, h.0, AllActive-keep timeout now ns h.1)

-- Every node is known once and active, and the counter counts them.
pub record IsCoordinator (c : MasterCoordinator) : Type 0 where
  pub distinct : IsDistinct c.nodes
  pub active : All (λ n. n.is_active ≡ true) c.nodes
  pub counted : c.active_count ≡ length c.nodes

abbrev pub stale_node : MasterCoordinator → (now id : ℕ) → Bool
stale_node c now id = elim (lookup id c.nodes) [
  | none ↦ false
  | some n ↦ is_stale c.heartbeat_timeout_ms now n
]

pub member-stale_ids :
    (timeout now id : ℕ) (ns : List NodeDescriptor)
    → IsDistinct ns
    → member id (stale_ids timeout now ns)
      ≡ elim (lookup id ns) [ none ↦ false | some n ↦ is_stale timeout now n ]
unfolding stale_ids
member-stale_ids timeout now id [] h = refl
member-stale_ids timeout now id (n ∷ ns) h =
    let rest = member-stale_ids timeout now id ns h.1 in
    elim (Bool-cases (n.node_id == id)) [
      | inr other ↦ ground (arith, other, rest)
      | inl same ↦
          let here : n.node_id ≡ id = ground (arith, same) in
          let gone : lookup id ns ≡ none = subst (λ j. lookup j ns ≡ none) here h.0 in
          ground (arith, same, rest, gone)
    ]

pub evict_stale_nodes_nodes :
    (c : MasterCoordinator) (now : ℕ)
    → IsCoordinator c
    → (evict_stale_nodes c now).0.nodes ≡ keep c.heartbeat_timeout_ms now c.nodes
unfolding evict_stale_nodes
evict_stale_nodes_nodes c now h =
    ground (arith, delete_all-keep c.heartbeat_timeout_ms now c.nodes h.distinct)

pub evict_stale_nodes-IsCoordinator :
    (c : MasterCoordinator) (now : ℕ)
    → length c.nodes < u64_mod
    → IsCoordinator c
    → IsCoordinator (evict_stale_nodes c now).0
unfolding evict_stale_nodes
evict_stale_nodes-IsCoordinator c now small h =
    let nodes = evict_stale_nodes_nodes c now h in
    let size = length-keep c.heartbeat_timeout_ms now c.nodes in
    record {
      distinct =
          subst IsDistinct (sym nodes)
            (IsDistinct-keep c.heartbeat_timeout_ms now c.nodes h.distinct);
      active =
          subst AllActive (sym nodes) (AllActive-keep c.heartbeat_timeout_ms now c.nodes h.active);
      counted = ground (arith, h.counted, ap length nodes, size, small);
    }

pub lookup-delete :
    (id j : ℕ) (ns : List NodeDescriptor) → lookup j ns ≡ none → lookup j (delete id ns) ≡ none
lookup-delete id j [] h = refl
lookup-delete id j (n ∷ ns) h = ground (arith, h, lookup-delete id j ns)

pub IsDistinct-delete :
    (id : ℕ) (ns : List NodeDescriptor) → IsDistinct ns → IsDistinct (delete id ns)
IsDistinct-delete id [] h = tt
IsDistinct-delete id (n ∷ ns) h =
    ground (arith, h.0, h.1, IsDistinct-delete id ns h.1, lookup-delete id n.node_id ns h.0)

pub AllActive-delete : (id : ℕ) (ns : List NodeDescriptor) → AllActive ns → AllActive (delete id ns)
AllActive-delete id [] h = tt
AllActive-delete id (n ∷ ns) h = ground (arith, h.0, h.1, AllActive-delete id ns h.1)

pub delete-some :
    (id : ℕ) (ns : List NodeDescriptor) (d : NodeDescriptor)
    → lookup id ns ≡ some d
    → AllActive ns
    → (length (delete id ns) + 1 ≡ length ns) × (d.is_active ≡ true)
delete-some id [] d h a = absurd (ground arith)
delete-some id (n ∷ ns) d h a = elim (Bool-cases (n.node_id == id)) [
  | inl same ↦ ground (arith, same, h, a.0)
  | inr other ↦
      let rest = delete-some id ns d (ground (arith, h, other)) a.1 in ground (arith, other, rest)
]

abbrev pub beat : ℕ → NodeDescriptor → NodeDescriptor
beat now n = record n { is_active = true; last_heartbeat = now }

pub lookup-beat :
    (id now j : ℕ) (ns : List NodeDescriptor)
    → lookup j ns ≡ none
    → lookup j (modify id (beat now) ns) ≡ none
lookup-beat id now j [] h = refl
lookup-beat id now j (n ∷ ns) h = ground (arith, h, lookup-beat id now j ns)

pub IsDistinct-beat :
    (id now : ℕ) (ns : List NodeDescriptor) → IsDistinct ns → IsDistinct (modify id (beat now) ns)
IsDistinct-beat id now [] h = tt
IsDistinct-beat id now (n ∷ ns) h =
    ground (arith, h.0, h.1, IsDistinct-beat id now ns h.1, lookup-beat id now n.node_id ns h.0)

pub AllActive-beat :
    (id now : ℕ) (ns : List NodeDescriptor) → AllActive ns → AllActive (modify id (beat now) ns)
AllActive-beat id now [] h = tt
AllActive-beat id now (n ∷ ns) h = ground (arith, h.0, h.1, AllActive-beat id now ns h.1)

pub length-beat :
    (id now : ℕ) (ns : List NodeDescriptor) → length (modify id (beat now) ns) ≡ length ns
length-beat id now [] = refl
length-beat id now (n ∷ ns) = ground (arith, length-beat id now ns)

pub active_lookup :
    (id : ℕ) (ns : List NodeDescriptor) (d : NodeDescriptor)
    → lookup id ns ≡ some d
    → AllActive ns
    → d.is_active ≡ true
active_lookup id ns d h a = (delete-some id ns d h a).1
