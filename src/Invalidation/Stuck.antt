-- ===== src/Invalidation/Stuck.antt =====
-- The poller of src/klnk/klnk-daemon/src/invalidation.rs behind a message that its callback refuses.
use virthub.Common.{
  ℕ, suc, ◌+◌, ◌-◌, ◌≡◌, refl, subst, sym, true, false, List, [], ◌∷◌, ◌++◌, ltb, length, arith,
  inl, inr,
}
use virthub.ControlPlane.{ControlPlaneManager}
use virthub.Invalidation.{
  Message, InvalidationBuffer, write_entry, invalidate_page, poll, process_pending, process_from,
  read_entry_raw, Pending,
}
use virthub.Invalidation.Ring.{Holds, write_entry-Holds}
use virthub.Invalidation.Poller.{is_remote, invalidate_page_refuses}

process_from_stuck :
    (b : InvalidationBuffer) (m : Message) (q : List Message) (c : ControlPlaneManager)
    → Holds (m ∷ q) b
    → is_remote c m ≡ false
    → let start : Pending ControlPlaneManager = record {
      buffer = b;
      state = c;
      idx = b.head;
      processed = 0;
    } in
      process_from invalidate_page (suc (length q)) b.tail start ≡ start
unfolding process_from read_entry_raw
process_from_stuck b m q c h own =
    let refused = invalidate_page_refuses c m own in
    let inside : ltb b.head b.tail ≡ true = ground (arith, h.size) in
    ground (arith, h.stands.0, refused, inside)

-- A round with such a message at the head of the queue does nothing.
poll_idle :
    (b : InvalidationBuffer) (m : Message) (q : List Message) (c : ControlPlaneManager)
    → Holds (m ∷ q) b
    → is_remote c m ≡ false
    → poll b c ≡ (b, c, 0)
unfolding poll process_pending
poll_idle b m q c h own =
    let start : Pending ControlPlaneManager = record {
      buffer = b;
      state = c;
      idx = b.head;
      processed = 0;
    } in
    let stuck : process_from invalidate_page (b.tail - b.head) b.tail start ≡ start =
      subst (λ k. process_from invalidate_page k b.tail start ≡ start) {x = suc (length q)}
        (omega (arith, h.size)) (process_from_stuck b m q c h own) in
    ground (arith, stuck)

-- What happens to the ring and the control plane: a round of the poller, a message written by
-- another node, or other calls that leave the control plane in a new state.
pub data Event : Type 0 where
  round : Event
  writes : Message → Event
  changes : ControlPlaneManager → Event

-- The ring, the control plane, and how many messages the rounds have processed.
pub record Node : Type 0 where
  pub buffer : InvalidationBuffer
  pub control_plane : ControlPlaneManager
  pub processed : ℕ

unfoldable pub happen : Node → Event → Node
happen n round =
    let (b', c', k) = poll n.buffer n.control_plane in
    record { buffer = b'; control_plane = c'; processed = n.processed + k }
happen n (writes m) = record n { buffer = (write_entry n.buffer m).0 }
happen n (changes c) = record n { control_plane = c }

unfoldable pub happen_all : Node → List Event → Node
unfolding happen
happen_all n [] = n
happen_all n (e ∷ es) = happen_all (happen n e) es

-- No change makes the message's page a known page of another owner.
abbrev pub StaysOwn : Message → List Event → Type 0
StaysOwn m [] = Unit {0}
StaysOwn m (changes c ∷ es) = (is_remote c m ≡ false) × StaysOwn m es
StaysOwn m (_ ∷ es) = StaysOwn m es

-- The control plane as the changes alone leave it.
abbrev pub changed : ControlPlaneManager → List Event → ControlPlaneManager
changed c [] = c
changed c (changes d ∷ es) = changed d es
changed c (_ ∷ es) = changed c es

-- What is left of the node: `m` at the head of the ring, and the control plane `c`.
abbrev pub IsBlocked : Message → ControlPlaneManager → Node → Node → Type 0
IsBlocked m c n n' =
    (n'.buffer.head ≡ n.buffer.head)
    × (n'.processed ≡ n.processed)
    × (n'.control_plane ≡ c)
    × ((q : List Message) × Holds (m ∷ q) n'.buffer)

write_entry-head : (b : InvalidationBuffer) (m : Message) → (write_entry b m).0.head ≡ b.head
unfolding write_entry
write_entry-head b m = ground arith

-- While the message at the head of the queue names an unknown page or a page of the node itself, the
-- poller is stuck: after any rounds, any messages written by other nodes, and any other changes of
-- the control plane that do not make the page a known page of another owner, no message has been
-- processed, the message still stands at the unmoved head of the ring, and the control plane is as
-- the other changes left it.
pub poll_stuck :
    (n : Node) (m : Message) (q : List Message) (es : List Event)
    → Holds (m ∷ q) n.buffer
    → is_remote n.control_plane m ≡ false
    → StaysOwn m es
    → IsBlocked m (changed n.control_plane es) n (happen_all n es)
unfolding happen_all
poll_stuck n m q [] h own stays = (refl, refl, refl, (q, h))
poll_stuck n m q (round ∷ es) h own stays =
    let idle = poll_idle n.buffer m q n.control_plane h own in
    let same : happen n round ≡ n = unfold happen in ground (arith, idle) in
    subst (λ x. IsBlocked m (changed n.control_plane es) n (happen_all x es)) (sym same)
      (poll_stuck n m q es h own stays)
poll_stuck n m q (writes x ∷ es) h own stays = elim (write_entry-Holds n.buffer (m ∷ q) x h) [
  | inl (holds, _, _) ↦
      let n' = happen n (writes x) in
      let rest =
        poll_stuck n' m (q ++ (x ∷ [])) es (unfold happen in holds) (unfold happen in own) stays in
      unfold happen in ground (arith, rest, write_entry-head n.buffer x)
  | inr (same, _, _) ↦
      let unmoved : happen n (writes x) ≡ n = unfold happen in ground (arith, same) in
      subst (λ y. IsBlocked m (changed n.control_plane es) n (happen_all y es)) (sym unmoved)
        (poll_stuck n m q es h own stays)
]
poll_stuck n m q (changes c ∷ es) h own stays =
    unfold happen in poll_stuck (record n { control_plane = c }) m q es h stays.0 stays.1
