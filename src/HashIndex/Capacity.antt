-- ===== src/HashIndex/Capacity.antt =====
-- The index of src/index/src/hash_index.rs at capacities that a u16 does not hold.
use virthub.Common.{ℕ, suc, ◌*◌, ◌%◌, ◌^◌, ◌≤◌, ◌≡◌, true, false, some, arith}
use virthub.Common.Result.{err}
use virthub.Eviction.{KvBlockKey, key_eq}
use virthub.HashIndex.{
  ConcurrentHashIndex, IndexSlotValue, key_not_found, capacity_exceeded, in_hand, home,
  check_capacity, insert, insert_from, get, get_from,
}

insert_from_collision :
    (capacity mask : ℕ) (c : ConcurrentHashIndex) (key : KvBlockKey) (value : IndexSlotValue)
    (idx : ℕ)
    → capacity % 2 ^ 16 ≡ 0
    → (c.buckets idx).occupied ≡ true
    → key_eq (c.buckets idx).key key ≡ false
    → insert_from capacity mask (suc capacity) c.buckets idx (in_hand key value)
      ≡ some record { buckets = c.buckets; added = 0; result = err (capacity_exceeded capacity) }
unfolding insert_from
insert_from_collision capacity mask c key value idx wraps full other =
    ground (arith, wraps, full, other)

-- With a capacity of 65536 or another multiple of it, a key whose home bucket holds another key cannot be stored,
-- however empty the index is, and cannot be found, wherever it stands.
pub insert_collides :
    (c : ConcurrentHashIndex) (key : KvBlockKey) (value : IndexSlotValue)
    → c.capacity % 2 ^ 16 ≡ 0
    → 4 * c.count ≤ 3 * c.capacity
    → c.count ≤ 2 ^ 63
    → (c.buckets (home c.mask key)).occupied ≡ true
    → key_eq (c.buckets (home c.mask key)).key key ≡ false
    → (insert c key value ≡ some (c, err (capacity_exceeded c.capacity)))
      × (get c key ≡ some (err (key_not_found key)))
unfolding insert check_capacity get get_from
insert_collides c key value wraps room small full other =
    let idx = home c.mask key in
    let one = insert_from_collision c.capacity c.mask c key value idx wraps full other in
    (ground (arith, one, room, small), ground (arith, full, other, wraps))
