-- ===== src/HashIndex.antt =====
-- src/index/src/hash_index.rs: the Robin Hood hash index. A method holds the lock of the buckets, so it is one
-- step. A loop has fuel for a round for each bucket and one more; `none` is a loop that does not end in them.
pub mod Slots
pub mod Tables
pub mod Gets
pub mod Inserts
pub mod Stores
pub mod Updates
pub mod Maps
pub mod Refines
pub mod News
pub mod Shifts
pub mod Removes
pub mod Deletes
pub mod Capacity
mod Examples
use virthub.Common.{
  ℕ, zero, suc, ◌+◌, ◌-◌, ◌*◌, ◌/◌, ◌%◌, ◌^◌, Bool, true, false, not, ◌||◌, Option, none, some,
  List, [], ◌∷◌, ◌++◌, if◌then◌else◌, ltb, leb, ◌==◌, max, bit_and, bit_xor,
}
use virthub.Common.Word.{add64, sub64, mul64}
use virthub.Common.Result.{Result, ok, err}
use virthub.Eviction.{KvBlockKey, key_eq}

pub data HashIndexError : Type 0 where
  key_not_found : KvBlockKey → HashIndexError
  capacity_exceeded : ℕ → HashIndexError

pub record IndexSlotValue : Type 0 where
  pub tier_id : ℕ
  pub block_offset : ℕ
  pub payload_len : ℕ

pub record HashIndexBucket : Type 0 where
  pub key : KvBlockKey
  pub value : IndexSlotValue
  pub occupied : Bool
  pub probe_distance : ℕ

abbrev pub empty : HashIndexBucket
empty = record {
  key = record { namespace_id = 0; block_id = 0 };
  value = record { tier_id = 0; block_offset = 0; payload_len = 0 };
  occupied = false;
  probe_distance = 0;
}

-- The bucket array by index.
abbrev pub Buckets : Type 0
Buckets = ℕ → HashIndexBucket

abbrev pub put : Buckets → ℕ → HashIndexBucket → Buckets
put t i b j = if j == i then b else t j

pub record ConcurrentHashIndex : Type 0 where
  pub buckets : Buckets
  pub capacity : ℕ
  pub mask : ℕ
  pub count : ℕ

-- `next_power_of_two` from a power on; zero if it does not fit in 64 bits.
unfoldable pub power_from : (fuel power n : ℕ) → ℕ
power_from zero power n = 0
power_from (suc fuel) power n =
    let rest = power_from fuel (2 * power) n in if leb n power then power else rest

unfoldable pub new : ℕ → ConcurrentHashIndex
unfolding power_from
new capacity =
    let cap = max (power_from 64 1 capacity) 16 in
    record { buckets = λ i. empty; capacity = cap; mask = cap - 1; count = 0 }

-- The FNV-1a hash over the little-endian bytes of both words.
unfoldable pub le_bytes : ℕ → ℕ → List ℕ
le_bytes zero n = []
le_bytes (suc k) n = n % 256 ∷ le_bytes k (n / 256)

unfoldable pub fnv : ℕ → List ℕ → ℕ
fnv hash [] = hash
fnv hash (b ∷ bs) = fnv (mul64 (bit_xor hash b) 0x100000001b3) bs

unfoldable pub hash_key : KvBlockKey → ℕ
unfolding le_bytes fnv
hash_key key = fnv 0xcbf29ce484222325 (le_bytes 8 key.namespace_id ++ le_bytes 8 key.block_id)

unfoldable pub home : (mask : ℕ) → KvBlockKey → ℕ
unfolding hash_key
home mask key = bit_and (hash_key key) mask

-- The capacity is a power of two, so the quotient of `load_factor` is exact and compares as whole numbers.
unfoldable pub check_capacity : ConcurrentHashIndex → Result HashIndexError (Unit {0})
check_capacity c =
    if ltb (3 * c.capacity) (4 * c.count) then err (capacity_exceeded c.capacity) else ok tt

-- What a loop of `insert` leaves: the buckets, the number of entries added, and the result.
pub record Inserted : Type 0 where
  pub buckets : Buckets
  pub added : ℕ
  pub result : Result HashIndexError (Unit {0})

-- The bucket in hand with its distance, a u16, increased.
abbrev pub farther : HashIndexBucket → HashIndexBucket
farther b = record b { probe_distance = (b.probe_distance + 1) % 2 ^ 16 }

-- The loop of `insert` with the entry in hand, a bucket that is not stored yet.
unfoldable pub insert_from :
    (capacity mask fuel : ℕ) → Buckets → (idx : ℕ) → HashIndexBucket → Option Inserted
insert_from capacity mask zero t idx cur = none
insert_from capacity mask (suc fuel) t idx cur =
    let bucket = t idx in
    let displaces = ltb bucket.probe_distance cur.probe_distance in
    let t' = if displaces then put t idx cur else t in
    let cur' = farther (if displaces then bucket else cur) in
    let rest = insert_from capacity mask fuel t' (bit_and (idx + 1) mask) cur' in
    if not bucket.occupied
    then some record { buckets = put t idx cur; added = 1; result = ok tt }
    else if key_eq bucket.key cur.key
    then some record {
      buckets = put t idx (record bucket { value = cur.value });
      added = 0;
      result = ok tt;
    }
    else if ltb (capacity % 2 ^ 16) cur'.probe_distance
    then some record { buckets = t'; added = 0; result = err (capacity_exceeded capacity) }
    else rest

abbrev pub in_hand : KvBlockKey → IndexSlotValue → HashIndexBucket
in_hand key value = record { key = key; value = value; occupied = true; probe_distance = 0 }

unfoldable pub insert :
    ConcurrentHashIndex
    → KvBlockKey
    → IndexSlotValue
    → Option (ConcurrentHashIndex × Result HashIndexError (Unit {0}))
unfolding check_capacity insert_from home
insert c key value = elim (check_capacity c) [
  | err e ↦ some (c, err e)
  | ok _ ↦
      elim (insert_from c.capacity c.mask (suc c.capacity) c.buckets (home c.mask key)
        (in_hand key value)) [
          | none ↦ none
          | some r ↦
              some (record c { buckets = r.buckets; count = add64 c.count r.added }, r.result)
        ]
]

unfoldable pub get_from :
    (capacity mask fuel : ℕ)
    → Buckets
    → KvBlockKey
    → (idx dist : ℕ) → Option (Result HashIndexError IndexSlotValue)
get_from capacity mask zero t key idx dist = none
get_from capacity mask (suc fuel) t key idx dist =
    let bucket = t idx in
    let dist' = (dist + 1) % 2 ^ 16 in
    let rest = get_from capacity mask fuel t key (bit_and (idx + 1) mask) dist' in
    if not bucket.occupied || ltb bucket.probe_distance dist
    then some (err (key_not_found key))
    else if key_eq bucket.key key
    then some (ok bucket.value)
    else if ltb (capacity % 2 ^ 16) dist'
    then some (err (key_not_found key))
    else rest

unfoldable pub get :
    ConcurrentHashIndex → KvBlockKey → Option (Result HashIndexError IndexSlotValue)
unfolding get_from home
get c key = get_from c.capacity c.mask (suc c.capacity) c.buckets key (home c.mask key) 0

-- The backward shift from a freed bucket on.
unfoldable pub shift_from : (mask fuel : ℕ) → Buckets → (prev_idx curr_idx : ℕ) → Option Buckets
shift_from mask zero t prev_idx curr_idx = none
shift_from mask (suc fuel) t prev_idx curr_idx =
    let next_bucket = t curr_idx in
    let nearer = record next_bucket { probe_distance = next_bucket.probe_distance - 1 } in
    let rest =
      shift_from mask fuel (put (put t curr_idx nearer) prev_idx nearer) curr_idx
        (bit_and (curr_idx + 1) mask) in
    if not next_bucket.occupied || next_bucket.probe_distance == 0
    then some (put t prev_idx empty)
    else rest

-- The search of `remove`, which has no bound on the distance: the index of the key.
unfoldable pub find_from :
    (mask fuel : ℕ) → Buckets → KvBlockKey → (idx dist : ℕ) → Option (Option ℕ)
find_from mask zero t key idx dist = none
find_from mask (suc fuel) t key idx dist =
    let bucket = t idx in
    let rest = find_from mask fuel t key (bit_and (idx + 1) mask) ((dist + 1) % 2 ^ 16) in
    if not bucket.occupied || ltb bucket.probe_distance dist
    then some none
    else if key_eq bucket.key key
    then some (some idx)
    else rest

unfoldable pub remove :
    ConcurrentHashIndex
    → KvBlockKey
    → Option (ConcurrentHashIndex × Result HashIndexError IndexSlotValue)
unfolding find_from shift_from home
remove c key = elim (find_from c.mask (suc c.capacity) c.buckets key (home c.mask key) 0) [
  | none ↦ none
  | some none ↦ some (c, err (key_not_found key))
  | some (some idx) ↦
      elim (shift_from c.mask (suc c.capacity) c.buckets idx (bit_and (idx + 1) c.mask)) [
        | none ↦ none
        | some t ↦
            some (record c { buckets = t; count = sub64 c.count 1 }, ok (c.buckets idx).value)
      ]
]

abbrev pub len : ConcurrentHashIndex → ℕ
len c = c.count
