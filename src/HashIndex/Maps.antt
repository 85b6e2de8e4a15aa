-- ===== src/HashIndex/Maps.antt =====
-- The index of src/index/src/hash_index.rs as a map from keys to values.
use virthub.Common.{
  ℕ, zero, suc, ◌-◌, ◌*◌, ◌^◌, ◌≤◌, ◌<◌, ◌≡◌, ◌⊎◌, refl, sym, ap, subst, ◌∙◌, true, false, some,
  ◌==◌, arith, Bool-cases, inl, inr,
}
use virthub.Common.Result.{ok, err}
use virthub.Eviction.{KvBlockKey, key_eq}
use virthub.HashIndex.{ConcurrentHashIndex, IndexSlotValue, key_not_found, Buckets, home, get_from}
use virthub.HashIndex.Slots.{home_lt, IsTable, Absent, Has, key_eq_of}
use virthub.HashIndex.Tables.{occ_count, key_differs}
use virthub.HashIndex.Gets.{get_from-Has, get_from-Absent}

-- The index is sound: its capacity is a power of two from 2 to 32768, its buckets are a table and its count is the
-- number of entries.
pub record IsIndex (c : ConcurrentHashIndex) : Type 0 where
  pub exponent : ℕ
  pub power : c.capacity ≡ 2 ^ exponent
  pub two : 1 < c.capacity
  pub small : 2 * c.capacity ≤ 2 ^ 16
  pub masked : c.mask ≡ c.capacity - 1
  pub table : IsTable c.capacity (home (c.capacity - 1)) c.buckets
  pub counted : c.count ≡ occ_count c.capacity c.buckets

pub find_slot :
    (m n : ℕ) (t : Buckets) (key : KvBlockKey)
    → m ≤ n
    → ((i : ℕ) × (i < n) × ((t i).occupied ≡ true) × ((t i).key ≡ key)) ⊎ Absent m t key
find_slot zero n t key le = inr (λ i li. absurd (omega (arith, li)))
find_slot (suc m) n t key le = elim (find_slot m n t key (omega (arith, le))) [
  | inl found ↦ inl found
  | inr below ↦ elim (Bool-cases ((t m).occupied)) [
    | inr free ↦ inr (λ i li o. elim (Bool-cases (i == m)) [
      | inl here ↦ absurd (
          ground
            (arith, o, free, ap (λ y. (t y).occupied) (let p : i ≡ m = ground (arith, here) in p)))
      | inr other ↦ below i (ground (arith, li, other)) o
    ])
    | inl full ↦ elim (Bool-cases (key_eq (t m).key key)) [
      | inl same ↦ inl (m, omega (arith, le), full, key_eq_of (t m).key key same)
      | inr differs ↦ inr (λ i li o. elim (Bool-cases (i == m)) [
        | inl here ↦
            let p : i ≡ m = ground (arith, here) in
            subst (λ y. key_eq (t y).key key ≡ false) (sym p) differs
        | inr other ↦ below i (ground (arith, li, other)) o
      ])
    ]
  ]
]

module _ (c : ConcurrentHashIndex) (s : IsIndex c) where
  pub at_home_lt : (j : KvBlockKey) → home (c.capacity - 1) j < c.capacity
  at_home_lt j = home_lt c.capacity s.exponent j s.power (omega (arith, s.two))

  pub get_masked :
      (t : Buckets) (j : KvBlockKey)
      → get_from c.capacity c.mask (suc c.capacity) t j (home c.mask j) 0
        ≡ get_from c.capacity (c.capacity - 1) (suc c.capacity) t j (home (c.capacity - 1) j) 0
  get_masked t j = ap (λ m. get_from c.capacity m (suc c.capacity) t j (home m j) 0) s.masked

  pub get-Has :
      (t : Buckets) (j : KvBlockKey) (w : IndexSlotValue)
      → IsTable c.capacity (home (c.capacity - 1)) t
      → Has c.capacity t j w
      → get_from c.capacity c.mask (suc c.capacity) t j (home c.mask j) 0 ≡ some (ok w)
  get-Has t j w h has =
      get_masked t j
      ∙ get_from-Has c.capacity s.exponent s.power (omega (arith, s.two)) s.small
          (home (c.capacity - 1)) t j w at_home_lt h has

  pub get-Absent :
      (t : Buckets) (j : KvBlockKey)
      → Absent c.capacity t j
      → get_from c.capacity c.mask (suc c.capacity) t j (home c.mask j) 0
        ≡ some (err (key_not_found j))
  get-Absent t j h =
      get_masked t j
      ∙ get_from-Absent c.capacity s.exponent s.power (omega (arith, s.two)) s.small
          (home (c.capacity - 1)) t j (at_home_lt j) h

  -- Tables that have the same values for a key answer alike.
  pub get_agrees :
      (t t' : Buckets) (j : KvBlockKey)
      → IsTable c.capacity (home (c.capacity - 1)) t
      → IsTable c.capacity (home (c.capacity - 1)) t'
      → ((w : IndexSlotValue) → Has c.capacity t j w → Has c.capacity t' j w)
      → ((w : IndexSlotValue) → Has c.capacity t' j w → Has c.capacity t j w)
      → get_from c.capacity c.mask (suc c.capacity) t' j (home c.mask j) 0
        ≡ get_from c.capacity c.mask (suc c.capacity) t j (home c.mask j) 0
  get_agrees t t' j h h' there back = elim (find_slot c.capacity c.capacity t j (omega arith)) [
    | inl (i, li, o, same) ↦
        let has : Has c.capacity t j (t i).value =
          (i, li, record { stored = o; same_key = same; same_value = refl }) in
        get-Has t' j (t i).value h' (there (t i).value has) ∙ sym (get-Has t j (t i).value h has)
    | inr absent ↦
        let absent' : Absent c.capacity t' j = λ i li o. elim (Bool-cases (key_eq (t' i).key j)) [
          | inr f ↦ f
          | inl e ↦
              let (i2, l2, m) = back (t' i).value (
                i,
                li,
                record { stored = o; same_key = key_eq_of (t' i).key j e; same_value = refl },
              ) in
              absurd (key_differs (t i2).key j (absent i2 l2 m.stored) m.same_key)
        ] in
        get-Absent t' j absent' ∙ sym (get-Absent t j absent)
  ]
