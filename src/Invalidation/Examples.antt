-- ===== src/Invalidation/Examples.antt =====
-- The ring of src/klnk/klnk-daemon/src/invalidation.rs with two messages, and a node that knows three pages.
use virthub.Common.{
  All, ℕ, ◌≡◌, ◌≤◌, refl, Bool, true, false, some, List, [], ◌∷◌, ◌+◌, if◌then◌else◌, ◌==◌, length,
  drop, arith,
}
use virthub.Domain.{DistributedPageEntry, shared_read}
use virthub.ControlPlane
use virthub.ControlPlane.{ControlPlaneManager}
use virthub.Invalidation.{Message, zero_entry, InvalidationBuffer, process_pending, poll}
use virthub.Invalidation.Ring.{entry_of, Holds, deliver, process_pending-refines}
use virthub.Invalidation.Poller.{IsAfter, is_remote, poll_drains}
use virthub.Invalidation.Stuck.{
  Event, round, writes, changes, Node, happen_all, StaysOwn, changed, IsBlocked, poll_stuck,
}

abbrev message : ℕ → Message
message a = record { vaddr = a; version = 7; page_size = 4096 }

abbrev two : List Message
two = message 0x1000 ∷ message 0x2000 ∷ []

abbrev own_first : List Message
own_first = message 0x3000 ∷ message 0x2000 ∷ []

-- A ring whose indices have passed the end of the array once.
abbrev ring : List Message → InvalidationBuffer
ring q = record {
  head = 1023;
  tail = 1023 + length q;
  entries = λ slot.
      if slot == 1023
      then elim q [ [] ↦ zero_entry | m ∷ _ ↦ entry_of m ]
      else if slot == 0
      then elim q [ [] ↦ zero_entry | _ ∷ r ↦ elim r [ [] ↦ zero_entry | m ∷ _ ↦ entry_of m ] ]
      else zero_entry;
}

two-Holds : Holds two (ring two)
two-Holds = record { stands = (refl, (refl, tt)); size = refl; bounded = omega arith }

own_first-Holds : Holds own_first (ring own_first)
own_first-Holds = record { stands = (refl, (refl, tt)); size = refl; bounded = omega arith }

abbrev page : ℕ → ℕ → DistributedPageEntry
page a owner = record {
  page_vaddr = a;
  page_size = 4096;
  coherence_state = shared_read;
  primary_owner = owner;
  replica_holders = 1 ∷ 3 ∷ [];
  version = 6;
  metadata = [];
}

-- Node 1 knows two pages of node 2 and one of its own.
abbrev node : ControlPlaneManager
node = record (ControlPlane.new 1) {
  page_states = λ a.
      if a == 0x1000
      then some (page a 2)
      else if a == 0x2000
      then some (page a 2)
      else some (page a 1);
}

two-remote : All (λ m. is_remote node m ≡ true) two
unfolding ControlPlane.new
two-remote = (refl, (refl, tt))

own_page : is_remote node (message 0x3000) ≡ false
unfolding ControlPlane.new
own_page = refl

-- A callback that adds up the addresses and refuses the page at 0x2000.
abbrev add_up : ℕ → Message → ℕ × Bool
add_up s m = (s + m.vaddr, if m.vaddr == 0x2000 then false else true)

process_pending-refines_example :
    let (b', s', n) = process_pending add_up (ring two) 0 in
    ((s', n) ≡ deliver add_up 0 two) × (n ≤ length two) × Holds (drop n two) b'
process_pending-refines_example = process_pending-refines add_up (ring two) two 0 two-Holds

delivered : deliver add_up 0 two ≡ (0x3000, 1)
unfolding deliver
delivered = refl

poll_drains_example :
    let (b', c', n) = poll (ring two) node in
    (n ≡ length two) × Holds [] b' × IsAfter true node c' 0x1000
poll_drains_example = poll_drains (ring two) two node 0x1000 two-Holds two-remote

-- Rounds with a message written in between, and a new page of another node.
abbrev events : List Event
events =
    round
    ∷ writes (message 0x1000)
    ∷ round
    ∷ changes (record node {
      page_states = λ a. if a == 0x4000 then some (page a 2) else node.page_states a;
    })
    ∷ round
    ∷ []

events-StaysOwn : StaysOwn (message 0x3000) events
unfolding ControlPlane.new
events-StaysOwn = (refl, tt)

abbrev stuck : Node
stuck = record { buffer = ring own_first; control_plane = node; processed = 0 }

poll_stuck_example :
    IsBlocked (message 0x3000) (changed node events) stuck (happen_all stuck events)
poll_stuck_example =
    poll_stuck stuck (message 0x3000) (message 0x2000 ∷ []) events own_first-Holds own_page
      events-StaysOwn
