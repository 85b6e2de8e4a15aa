-- ===== src/HashIndex/Deletes.antt =====
-- What `remove` of src/index/src/hash_index.rs does to the map that the index is.
use virthub.Common.{
  ℕ, suc, ◌+◌, ◌-◌, ◌<◌, ◌≡◌, refl, sym, ap, subst, ◌∙◌, true, false, none, some, if◌then◌else◌,
  ◌==◌, bit_and, arith, Bool-cases, inl, inr,
}
use virthub.Common.Word.{sub64}
use virthub.Common.Result.{Result, ok, err}
use virthub.Eviction.{KvBlockKey, key_eq}
use virthub.HashIndex.{
  ConcurrentHashIndex, IndexSlotValue, HashIndexError, key_not_found, Buckets, put, empty, home,
  shift_from, find_from, remove, get,
}
use virthub.HashIndex.Slots.{
  next, gap, and-next, gap_lt, next_lt, reach, IsTable, Absent, Has, key_eq_of,
}
use virthub.HashIndex.Tables.{
  occ_count, occ_count-put, occ_count_free, put_here, put_there, key_differs, Has-put_old,
  Has-put_only,
}
use virthub.HashIndex.Maps.{IsIndex, find_slot, at_home_lt, get-Has, get-Absent, get_agrees}
use virthub.HashIndex.Shifts.{IsHole}
use virthub.HashIndex.Removes.{shift_from-IsShifted, find_from_found, find_from_missing}

-- Taking the entry at `i` off a table leaves a hole there.
IsHole-put :
    (n : ℕ) (two : 1 < n) (at_home : KvBlockKey → ℕ) (t : Buckets) (i : ℕ)
    → IsTable n at_home t
    → i < n
    → (t i).occupied ≡ true
    → IsHole n at_home (put t i empty) i (t i).probe_distance
IsHole-put n two at_home t i h li occ =
    let s = put t i empty in
    let free = ap (λ y. y.occupied) (put_here t i empty i refl) in
    let kept : (j : ℕ) → (s j).occupied ≡ true → s j ≡ t j = λ j o. elim (Bool-cases (j == i)) [
      | inr other ↦ put_there t i empty j other
      | inl here ↦
          let same : j ≡ i = ground (arith, here) in
          absurd (ground (arith, o, ap (λ y. y.occupied) (put_here t i empty j same)))
    ] in
    let full : (j : ℕ) → (s j).occupied ≡ true → (t j).occupied ≡ true =
      λ j o. ap (λ y. y.occupied) (sym (kept j o)) ∙ o in
    record {
      free = free;
      distance = λ j lj o.
          subst (λ y. y.probe_distance ≡ gap n (at_home y.key) j) (sym (kept j o))
            (h.distance j lj (full j o));
      ordered = λ j lj ne o.
          let old = h.ordered j lj (full (next n j) o) in
          omega (
            arith,
            old,
            ap (λ y. y.probe_distance) (kept (next n j) o),
            ap reach (put_there t i empty j ne),
          );
      unique = λ a b la lb oa ob e.
          h.unique a b la lb (full a oa) (full b ob)
            (ap (λ y. y.key) (sym (kept a oa)) ∙ e ∙ ap (λ y. y.key) (kept b ob));
      before = λ p lp meets.
          let other : (p == i) ≡ false = ground (arith, two, meets, lp) in
          let old = h.ordered p lp (ap (λ y. (t y).occupied) meets ∙ occ) in
          omega (
            arith,
            old,
            ap (λ y. (t y).probe_distance) meets,
            ap reach (put_there t i empty p other),
          );
      after = λ o.
          let old = h.ordered i li (full (next n i) o) in
          let size : reach (t i) ≡ (t i).probe_distance + 1 = ground (arith, occ) in
          omega (arith, old, size, ap (λ y. y.probe_distance) (kept (next n i) o));
    }

-- What a removal that returns leaves.
pub record IsRemoved (c : ConcurrentHashIndex) (key : KvBlockKey) (c' : ConcurrentHashIndex)
    (r : Result HashIndexError IndexSlotValue) : Type 0 where
  pub sound : IsIndex c'
  pub same_capacity : c'.capacity ≡ c.capacity
  pub was : get c key ≡ some r
  pub gets :
      (j : KvBlockKey) → get c' j ≡ (if key_eq key j then some (err (key_not_found j)) else get c j)
  pub counts : c'.count + elim r [ ok _ ↦ 1 | err _ ↦ 0 ] ≡ c.count

remove_runs :
    (c : ConcurrentHashIndex) (key : KvBlockKey) (i : ℕ) (t : Buckets)
    → IsIndex c
    → i < c.capacity
    → find_from (c.capacity - 1) (suc c.capacity) c.buckets key (home (c.capacity - 1) key) 0
      ≡ some (some i)
    → shift_from (c.capacity - 1) (suc c.capacity) c.buckets i (next c.capacity i) ≡ some t
    → remove c key
      ≡ some (record c { buckets = t; count = sub64 c.count 1 }, ok (c.buckets i).value)
unfolding remove
remove_runs c key i t s li found shift =
    let n = c.capacity in
    let find' = ap (λ m. find_from m (suc n) c.buckets key (home m key) 0) s.masked ∙ found in
    let step = and-next n s.exponent i s.power (omega (arith, s.two)) li in
    let shift' =
      ap (λ m. shift_from m (suc n) c.buckets i (bit_and (i + 1) m)) s.masked
      ∙ ap (λ j. shift_from (n - 1) (suc n) c.buckets i j) step
      ∙ shift in
    ground (arith, find', shift')

remove-none :
    (c : ConcurrentHashIndex) (key : KvBlockKey)
    → IsIndex c
    → find_from (c.capacity - 1) (suc c.capacity) c.buckets key (home (c.capacity - 1) key) 0
      ≡ some none
    → remove c key ≡ some (c, err (key_not_found key))
unfolding remove
remove-none c key s missing =
    let find' =
      ap (λ m. find_from m (suc c.capacity) c.buckets key (home m key) 0) s.masked ∙ missing in
    ground (arith, find')

module _ (c : ConcurrentHashIndex) (s : IsIndex c) (key : KvBlockKey) where
  remove_missing :
      Absent c.capacity c.buckets key
      → (c' : ConcurrentHashIndex) × (r : Result HashIndexError IndexSlotValue) × (remove c key
          ≡ some (c', r))
        × IsRemoved c key c' r
  unfolding get
  remove_missing absent =
      let n = c.capacity in
      let missing =
        find_from_missing n s.exponent s.power s.two (home (n - 1)) (at_home_lt c s) (suc n)
          c.buckets key (home (n - 1) key) 0 s.small s.table absent (at_home_lt c s key)
          (omega arith) (omega arith) in
      let gone : get c key ≡ some (err (key_not_found key)) = get-Absent c s c.buckets key absent in
      (
        c,
        err (key_not_found key),
        remove-none c key s missing,
        record {
          sound = s;
          same_capacity = refl;
          was = gone;
          gets = λ j. elim (Bool-cases (key_eq key j)) [
            | inl mine ↦
                rw mine
                  (subst (λ y. get c y ≡ some (err (key_not_found y))) (key_eq_of key j mine) gone)
            | inr other ↦ rw other refl
          ];
          counts = omega arith;
        },
      )

  remove_found :
      (i : ℕ)
      → c.count < c.capacity
      → i < c.capacity
      → (c.buckets i).occupied ≡ true
      → (c.buckets i).key ≡ key
      → (c' : ConcurrentHashIndex) × (r : Result HashIndexError IndexSlotValue) × (remove c key
          ≡ some (c', r))
        × IsRemoved c key c' r
  unfolding get
  remove_found i room li o same =
      let n = c.capacity in
      let at_home = home (n - 1) in
      let t = c.buckets in
      let lh = at_home_lt c s (t i).key in
      let start : gap n (at_home (t i).key) (at_home (t i).key) ≡ 0 = ground (arith, lh) in
      let found =
        ap (λ d. find_from (n - 1) (suc n) t (t i).key (at_home (t i).key) d) (sym start)
        ∙ find_from_found n s.exponent s.power s.two at_home (at_home_lt c s) (suc n) t i
            (at_home (t i).key) (gap n (at_home (t i).key) i) s.small s.table li lh o refl
            (omega (arith, start)) (omega (arith, gap_lt n (at_home (t i).key) i lh li)) in
      let found' = ap (λ j. find_from (n - 1) (suc n) t j (at_home j) 0) (sym same) ∙ found in
      let (e, le, free) = occ_count_free n t (omega (arith, room, s.counted)) in
      let other : (e == i) ≡ false = elim (Bool-cases (e == i)) [
        | inr f ↦ f
        | inl f ↦
            let p : e ≡ i = ground (arith, f) in
            absurd (ground (arith, o, free, ap (λ y. (t y).occupied) p))
      ] in
      let hole = IsHole-put n s.two at_home t i s.table li o in
      let far = gap_lt n (next n i) e (next_lt n i li) le in
      let (r, shift, sh) =
        shift_from-IsShifted n s.exponent s.power s.two at_home (at_home_lt c s) (suc n) t i
          (t i).probe_distance e hole li le
          (ap (λ y. y.occupied) (put_there t i empty e other) ∙ free) other (omega (arith, far)) in
      let c' : ConcurrentHashIndex = record c { buckets = r; count = sub64 c.count 1 } in
      let less = occ_count-put n t i empty li in
      let one : occ_count n (put t i empty) + 1 ≡ occ_count n t = ground (arith, less, o) in
      let fits : sub64 c.count 1 + 1 ≡ c.count = omega (arith, one, s.counted, room, s.small) in
      let has : Has n t key (t i).value =
        (i, li, record { stored = o; same_key = same; same_value = refl }) in
      let absent : Absent n r key = λ a la oa. elim (Bool-cases (key_eq (r a).key key)) [
        | inr f ↦ f
        | inl mine ↦
            let back = sh.back key (r a).value (
              a,
              la,
              record { stored = oa; same_key = key_eq_of (r a).key key mine; same_value = refl },
            ) in
            absurd (elim (Has-put_only n t i empty key (r a).value back) [
              | inl (b, lb, ne, m) ↦
                  ground (arith, ne, s.table.unique b i lb li m.stored o (m.same_key ∙ sym same))
              | inr m ↦ ground (arith, m.stored)
            ])
      ] in
      (
        c',
        ok (t i).value,
        remove_runs c key i r s li found' shift,
        record {
          sound = record {
            exponent = s.exponent;
            power = s.power;
            two = s.two;
            small = s.small;
            masked = s.masked;
            table = sh.table;
            counted = omega (arith, fits, one, s.counted, sh.counted);
          };
          same_capacity = refl;
          was = get-Has c s t key (t i).value s.table has;
          gets = λ j. elim (Bool-cases (key_eq key j)) [
            | inl mine ↦ rw mine (
                subst (λ y. get c' y ≡ some (err (key_not_found y))) (key_eq_of key j mine)
                  (get-Absent c s r key absent))
            | inr differs ↦ rw differs (
                get_agrees c s t r j s.table sh.table
                  (λ w there. elim (Has-put_old n t i empty j w there) [
                    | inl still ↦ sh.there j w still
                    | inr m ↦ absurd (key_differs key j differs (sym same ∙ m.same_key))
                  ])
                  (λ w there. elim (Has-put_only n t i empty j w (sh.back j w there)) [
                    | inl (b, lb, ne, m) ↦ (b, lb, m)
                    | inr m ↦ absurd (ground (arith, m.stored))
                  ]))
          ];
          counts = omega (arith, fits);
        },
      )

-- On a sound index that is not full a removal ends; it returns what a lookup of the key returned, afterwards a
-- lookup of the key finds nothing and every other lookup answers as before, the count has gone down by one
-- exactly when the key was there, and the index is sound again.
pub remove-IsRemoved :
    (c : ConcurrentHashIndex) (key : KvBlockKey)
    → IsIndex c
    → c.count < c.capacity
    → (c' : ConcurrentHashIndex) × (r : Result HashIndexError IndexSlotValue) × (remove c key
        ≡ some (c', r))
      × IsRemoved c key c' r
remove-IsRemoved c key s room = elim (find_slot c.capacity c.capacity c.buckets key (omega arith)) [
  | inl (i, li, o, same) ↦ remove_found c s key i room li o same
  | inr absent ↦ remove_missing c s key absent
]
