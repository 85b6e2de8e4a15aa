-- ===== src/HashIndex/Examples.antt =====
-- Indexes of src/index/src/hash_index.rs: one of 16 buckets, and one of 65536.
use virthub.Common.{
  Bool-cases, inl, inr, if◌then◌else◌, ◌==◌, ℕ, length, ◌≤◌, ◌*◌, ◌≡◌, refl, some, List, [], ◌∷◌,
  true, arith,
}
use virthub.Common.Result.{Result, ok, err}
use virthub.Eviction.{KvBlockKey}
use virthub.HashIndex.{
  empty, home, HashIndexError, ConcurrentHashIndex, IndexSlotValue, key_not_found,
  capacity_exceeded, new, power_from, hash_key, le_bytes, fnv, insert, get, remove,
}
use virthub.HashIndex.Maps.{IsIndex}
use virthub.HashIndex.Refines.{insert_all}
use virthub.HashIndex.Slots.{IsTable}
use virthub.HashIndex.Deletes.{IsRemoved, remove-IsRemoved}
use virthub.HashIndex.News.{get-insert_all}
use virthub.HashIndex.Capacity.{insert_collides}

abbrev key : ℕ → KvBlockKey
key n = record { namespace_id = 1; block_id = n }

abbrev value : ℕ → IndexSlotValue
value n = record { tier_id = 0; block_offset = n; payload_len = 64 }

abbrev calls : List (KvBlockKey × IndexSlotValue)
calls = (key 1, value 10) ∷ (key 2, value 20) ∷ (key 1, value 30) ∷ []

calls_fit : 4 * length calls ≤ 3 * (new 10).capacity
unfolding new power_from
calls_fit = omega arith

get-insert_all_example :
    (c : ConcurrentHashIndex) × (insert_all (new 10) calls ≡ some c)
    × IsIndex c
    × (get c (key 1) ≡ some (ok (value 30)))
get-insert_all_example = get-insert_all 10 calls (key 1) (omega arith) calls_fit

-- A bucket array in which every bucket holds a key of its own.
abbrev crowded : ConcurrentHashIndex
crowded = record {
  buckets = λ i. record { key = key 7; value = value i; occupied = true; probe_distance = 0 };
  capacity = 65536;
  mask = 65535;
  count = 3;
}

insert_collides_example :
    (insert crowded (key 8) (value 1) ≡ some (crowded, err (capacity_exceeded 65536)))
    × (get crowded (key 8) ≡ some (err (key_not_found (key 8))))
insert_collides_example =
    insert_collides crowded (key 8) (value 1) refl (omega arith) (omega arith) refl refl

hashed : hash_key (key 1) ≡ 0x581cd0fa58d99645
unfolding hash_key le_bytes fnv
hashed = refl

home_one : home 15 (key 1) ≡ 5
unfolding home hash_key le_bytes fnv
home_one = refl

-- An index that holds the first key at its home.
abbrev single : ConcurrentHashIndex
single = record {
  buckets = λ i.
      if i == 5
      then record { key = key 1; value = value 10; occupied = true; probe_distance = 0 }
      else empty;
  capacity = 16;
  mask = 15;
  count = 1;
}

single-IsTable : IsTable 16 (home 15) single.buckets
single-IsTable = record {
  distance = λ i li o. elim (Bool-cases (i == 5)) [
    | inl here ↦ let at_five : i ≡ 5 = ground (arith, here) in rw at_five (ground (arith, home_one))
    | inr other ↦ absurd (ground (arith, o, other))
  ];
  ordered = λ i li o. ground (arith, o);
  unique = λ i j li lj oi oj e. ground (arith, oi, oj);
}

single-IsIndex : IsIndex single
single-IsIndex = record {
  exponent = 4;
  power = refl;
  two = omega arith;
  small = omega arith;
  masked = refl;
  table = single-IsTable;
  counted = refl;
}

remove-IsRemoved_example :
    (c' : ConcurrentHashIndex) × (r : Result HashIndexError IndexSlotValue) × (remove single (key 1)
      ≡ some (c', r))
    × IsRemoved single (key 1) c' r
remove-IsRemoved_example = remove-IsRemoved single (key 1) single-IsIndex (omega arith)
