-- ===== src/Invalidation/Poller.antt =====
-- The poller of src/klnk/klnk-daemon/src/invalidation.rs over the ring and the control plane.
use virthub.Common.{
  ℕ, suc, ◌≡◌, refl, ap, subst, sym, ◌∙◌, Bool, true, false, not, none, some, List, [], ◌∷◌,
  if◌then◌else◌, ltb, ◌==◌, length, drop, All, arith, Bool-cases, Option-cases, inl, inr,
}
use virthub.Domain.{DistributedPageEntry, invalid}
use virthub.ControlPlane.{
  ControlPlaneManager, update_page_state, remove_reader, updated_entry, is_exclusive, contains,
  retain_ne,
}
use virthub.Invalidation.{Message, InvalidationBuffer, invalidate_page, poll}
use virthub.Invalidation.Ring.{Holds, deliver, process_pending-refines}

-- Whether a message names a known page of another owner.
abbrev pub is_remote : ControlPlaneManager → Message → Bool
is_remote c m = elim (c.page_states m.vaddr) [
  | none ↦ false
  | some e ↦ not (e.primary_owner == c.local_node_id)
]

-- The page is known, invalid, and has no local reader.
abbrev pub IsDropped : ControlPlaneManager → ℕ → Type 0
IsDropped c a = elim (c.page_states a) [
  | none ↦ ⊥
  | some e ↦ (e.coherence_state ≡ invalid) × (contains e.replica_holders c.local_node_id ≡ false)
]

contains-retain_ne_same : (n : ℕ) (xs : List ℕ) → contains (retain_ne n xs) n ≡ false
unfolding contains retain_ne
contains-retain_ne_same n [] = refl
contains-retain_ne_same n (x ∷ xs) = ground (arith, contains-retain_ne_same n xs)

abbrev dropped_entry : ℕ → DistributedPageEntry → DistributedPageEntry
dropped_entry n e = record e {
  coherence_state = invalid;
  replica_holders = retain_ne n e.replica_holders;
}

invalidate_page_accepts :
    (c : ControlPlaneManager) (m : Message) (a : ℕ) (e : DistributedPageEntry)
    → c.page_states m.vaddr ≡ some e
    → (e.primary_owner == c.local_node_id) ≡ false
    → let (c', accepted) = invalidate_page c m in
      (accepted ≡ true)
      × (c'.local_node_id ≡ c.local_node_id)
      × (c'.page_states a
          ≡ (if m.vaddr == a then some (dropped_entry c.local_node_id e) else c.page_states a))
unfolding invalidate_page update_page_state remove_reader updated_entry is_exclusive
invalidate_page_accepts c m a e h o = ground (arith, h, o)

pub invalidate_page_refuses :
    (c : ControlPlaneManager) (m : Message)
    → is_remote c m ≡ false
    → invalidate_page c m ≡ (c, false)
unfolding invalidate_page
invalidate_page_refuses c m h = ground (arith, h)

is_remote-invalidate_page :
    (c : ControlPlaneManager) (m : Message) (e : DistributedPageEntry) (x : Message)
    → c.page_states m.vaddr ≡ some e
    → (e.primary_owner == c.local_node_id) ≡ false
    → is_remote (invalidate_page c m).0 x ≡ is_remote c x
is_remote-invalidate_page c m e x h o =
    let step = invalidate_page_accepts c m x.vaddr e h o in
    elim (Bool-cases (m.vaddr == x.vaddr)) [
      | inl same ↦
          let there : m.vaddr ≡ x.vaddr = ground (arith, same) in
          ground (arith, h, o, step, same, ap c.page_states there)
      | inr other ↦ ground (arith, step, other)
    ]

All-is_remote :
    (c c' : ControlPlaneManager) (q : List Message)
    → ((x : Message) → is_remote c' x ≡ is_remote c x)
    → All (λ x. is_remote c x ≡ true) q
    → All (λ x. is_remote c' x ≡ true) q
All-is_remote c c' [] same h = tt
All-is_remote c c' (x ∷ q) same h = (ground (arith, same x, h.0), All-is_remote c c' q same h.1)

abbrev pub names : List Message → ℕ → Bool
names [] a = false
names (m ∷ q) a = if m.vaddr == a then true else names q a

-- How a drained queue leaves the page `a`: dropped if it is named, and untouched if not.
abbrev pub IsAfter : Bool → (c c' : ControlPlaneManager) → ℕ → Type 0
IsAfter true c c' a = IsDropped c' a
IsAfter false c c' a = c'.page_states a ≡ c.page_states a

is_remote_entry :
    (c : ControlPlaneManager) (m : Message)
    → is_remote c m ≡ true
    → (e : DistributedPageEntry) × (c.page_states m.vaddr ≡ some e)
      × ((e.primary_owner == c.local_node_id) ≡ false)
is_remote_entry c m h = elim (Option-cases (c.page_states m.vaddr)) [
  | inl z ↦ absurd (ground (arith, h, z))
  | inr (e, z) ↦ (e, z, ground (arith, h, z))
]

IsAfter-then :
    (hit later : Bool) (c c1 c' : ControlPlaneManager) (a : ℕ) (e : DistributedPageEntry)
    → c1.page_states a ≡ (if hit then some (dropped_entry c.local_node_id e) else c.page_states a)
    → c'.local_node_id ≡ c.local_node_id
    → IsAfter later c1 c' a
    → IsAfter (if hit then true else later) c c' a
IsAfter-then true true c c1 c' a e one same h = h
IsAfter-then false true c c1 c' a e one same h = h
IsAfter-then true false c c1 c' a e one same h =
    ground (arith, one, h, same, contains-retain_ne_same c.local_node_id e.replica_holders)
IsAfter-then false false c c1 c' a e one same h = h ∙ one

deliver_remote :
    (c : ControlPlaneManager) (q : List Message) (a : ℕ)
    → All (λ x. is_remote c x ≡ true) q
    → let (c', n) = deliver invalidate_page c q in
      (n ≡ length q) × (c'.local_node_id ≡ c.local_node_id) × IsAfter (names q a) c c' a
unfolding deliver
deliver_remote c [] a h = (refl, refl, refl)
deliver_remote c (m ∷ q) a h =
    let (e, z, o) = is_remote_entry c m h.0 in
    let c1 = (invalidate_page c m).0 in
    let step = invalidate_page_accepts c m a e z o in
    let rest =
      deliver_remote c1 q a
        (All-is_remote c c1 q (λ x. is_remote-invalidate_page c m e x z o) h.1) in
    let first : deliver invalidate_page c (m ∷ q)
        ≡ ((deliver invalidate_page c1 q).0, suc (deliver invalidate_page c1 q).1) =
      ground (arith, step.0) in
    subst
      (λ r.
        (r.1 ≡ suc (length q))
        × (r.0.local_node_id ≡ c.local_node_id)
        × IsAfter (names (m ∷ q) a) c r.0 a)
      (sym first)
      (
        ap (λ n. suc n) rest.0,
        rest.1 ∙ step.1,
        IsAfter-then (m.vaddr == a) (names q a) c c1 (deliver invalidate_page c1 q).0 a e step.2
            (rest.1 ∙ step.1) rest.2,
      )

poll-deliver :
    (b : InvalidationBuffer) (q : List Message) (c : ControlPlaneManager)
    → Holds q b
    → let (b', c', n) = poll b c in ((c', n) ≡ deliver invalidate_page c q) × Holds (drop n q) b'
unfolding poll deliver
poll-deliver b [] c h = ground (arith, h.size, h)
poll-deliver b (m ∷ q) c h =
    let waits : ltb b.head b.tail ≡ true = ground (arith, h.size) in
    let run = process_pending-refines invalidate_page b (m ∷ q) c h in rw waits (run.0, run.2)

drop-length : (q : List Message) → drop (length q) q ≡ []
drop-length [] = refl
drop-length (m ∷ q) = drop-length q

-- When every waiting message names a known page of another owner, one round of the poller takes all of them
-- off the ring, makes every named page invalid and removes the local node from its readers, and leaves every
-- other page as it was.
pub poll_drains :
    (b : InvalidationBuffer) (q : List Message) (c : ControlPlaneManager) (a : ℕ)
    → Holds q b
    → All (λ x. is_remote c x ≡ true) q
    → let (b', c', n) = poll b c in (n ≡ length q) × Holds [] b' × IsAfter (names q a) c c' a
poll_drains b q c a h remote =
    let run = poll-deliver b q c h in
    let all = deliver_remote c q a remote in
    let count : (poll b c).2 ≡ length q = ap (λ r. r.1) run.0 ∙ all.0 in
    (
      count,
      subst (λ xs. Holds xs (poll b c).0) (ap (λ n. drop n q) count ∙ drop-length q) run.1,
      subst (λ x. IsAfter (names q a) c x a) (sym (ap (λ r. r.0) run.0)) all.2,
    )
