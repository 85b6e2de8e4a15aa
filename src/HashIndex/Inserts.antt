-- ===== src/HashIndex/Inserts.antt =====
-- The loop of `insert` of src/index/src/hash_index.rs on a table with a free bucket.
use virthub.Common.{
  ℕ, suc, ◌+◌, ◌-◌, ◌*◌, ◌%◌, ◌^◌, ◌≤◌, ◌<◌, ◌≡◌, ◌⊎◌, ap, ap₂, ◌∙◌, true, false, some, arith,
}
use virthub.Common.Result.{ok}
use virthub.Eviction.{KvBlockKey, key_eq}
use virthub.HashIndex.{
  HashIndexBucket, IndexSlotValue, Buckets, put, Inserted, insert_from, farther,
}
use virthub.HashIndex.Slots.{next, and-next, IsTable, Has}
use virthub.HashIndex.Tables.{occ_count}

-- The bucket one farther from its home.
abbrev pub on : HashIndexBucket → HashIndexBucket
on b = record b { probe_distance = b.probe_distance + 1 }

-- What the loop leaves of a table and an entry in hand whose key the table does not have.
pub record IsStored (n : ℕ) (at_home : KvBlockKey → ℕ) (t : Buckets) (cur : HashIndexBucket)
    (r : Inserted) : Type 0 where
  pub added : r.added ≡ 1
  pub succeeds : r.result ≡ ok tt
  pub table : IsTable n at_home r.buckets
  pub has_new : Has n r.buckets cur.key cur.value
  pub has_old :
      (key : KvBlockKey) (value : IndexSlotValue) → Has n t key value → Has n r.buckets key value
  pub has_only :
      (key : KvBlockKey) (value : IndexSlotValue)
      → Has n r.buckets key value
      → Has n t key value ⊎ ((cur.key ≡ key) × (cur.value ≡ value))
  pub counted : occ_count n r.buckets ≡ occ_count n t + 1

module _ (n k : ℕ) (pow : n ≡ 2 ^ k) (two : 1 < n) (small : 2 * n ≤ 2 ^ 16) where
  pub stop :
      (fuel : ℕ) (t : Buckets) (x : ℕ) (cur : HashIndexBucket)
      → (t x).occupied ≡ false
      → insert_from n (n - 1) (suc fuel) t x cur
        ≡ some record { buckets = put t x cur; added = 1; result = ok tt }
  unfolding insert_from
  stop fuel t x cur free = ground (arith, free)

  farther_lem : (b : HashIndexBucket) → b.probe_distance < n → farther b ≡ on b
  farther_lem b far = ap (λ d. record b { probe_distance = d }) (omega (arith, far, small))

  pub keep_step :
      (fuel : ℕ) (t : Buckets) (x : ℕ) (cur : HashIndexBucket)
      → x < n
      → (t x).occupied ≡ true
      → cur.probe_distance ≤ (t x).probe_distance
      → key_eq (t x).key cur.key ≡ false
      → cur.probe_distance < n
      → insert_from n (n - 1) (suc fuel) t x cur ≡ insert_from n (n - 1) fuel t (next n x) (on cur)
  unfolding insert_from
  keep_step fuel t x cur lx occ near other far =
      let cap : n % 2 ^ 16 ≡ n = omega (arith, small, two) in
      let narrow : (cur.probe_distance + 1) % 2 ^ 16 ≡ cur.probe_distance + 1 =
        omega (arith, small, far) in
      let moved =
        ap₂ (λ j c. insert_from n (n - 1) fuel t j c) (and-next n k x pow (omega (arith, two)) lx)
          (farther_lem cur far) in
      ground (arith, occ, near, other, cap, far, narrow) ∙ moved

  pub swap_step :
      (fuel : ℕ) (t : Buckets) (x : ℕ) (cur : HashIndexBucket)
      → x < n
      → (t x).occupied ≡ true
      → (t x).probe_distance < cur.probe_distance
      → key_eq (t x).key cur.key ≡ false
      → cur.probe_distance < n
      → insert_from n (n - 1) (suc fuel) t x cur
        ≡ insert_from n (n - 1) fuel (put t x cur) (next n x) (on (t x))
  unfolding insert_from
  swap_step fuel t x cur lx occ near other far =
      let cap : n % 2 ^ 16 ≡ n = omega (arith, small, two) in
      let narrow : ((t x).probe_distance + 1) % 2 ^ 16 ≡ (t x).probe_distance + 1 =
        omega (arith, small, far, near) in
      let moved =
        ap₂ (λ j c. insert_from n (n - 1) fuel (put t x cur) j c)
          (and-next n k x pow (omega (arith, two)) lx)
          (farther_lem (t x) (omega (arith, near, far))) in
      ground (arith, occ, near, other, cap, far, narrow) ∙ moved
