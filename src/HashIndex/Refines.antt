-- ===== src/HashIndex/Refines.antt =====
-- What `insert` and `get` of src/index/src/hash_index.rs do to the map that the index is.
use virthub.Common.{
  ℕ, suc, ◌+◌, ◌-◌, ◌*◌, ◌≤◌, ◌<◌, ◌≡◌, refl, sym, ap, subst, ◌∙◌, true, Option, none, some, List,
  [], ◌∷◌, if◌then◌else◌, length, arith, Bool-cases, inl, inr,
}
use virthub.Common.Word.{add64}
use virthub.Common.Result.{ok, err}
use virthub.Eviction.{KvBlockKey, key_eq}
use virthub.HashIndex.{
  ConcurrentHashIndex, IndexSlotValue, Inserted, insert_from, in_hand, home, insert, check_capacity,
  get,
}
use virthub.HashIndex.Slots.{gap, gap_lt, Absent, Has, key_eq_of}
use virthub.HashIndex.Tables.{
  occ_count-put, occ_count_free, IsCarried, key_differs, Has-put_new, Has-put_old, Has-put_only,
}
use virthub.HashIndex.Stores.{insert_from-IsStored}
use virthub.HashIndex.Updates.{revalued, IsTable-revalued, insert_from_update}
use virthub.HashIndex.Maps.{IsIndex, find_slot, at_home_lt, get-Has, get_agrees}

-- What an insertion that returns leaves.
pub record IsInserted (c : ConcurrentHashIndex) (key : KvBlockKey) (value : IndexSlotValue)
    (c' : ConcurrentHashIndex) : Type 0 where
  pub sound : IsIndex c'
  pub same_capacity : c'.capacity ≡ c.capacity
  pub gets : (j : KvBlockKey) → get c' j ≡ (if key_eq key j then some (ok value) else get c j)
  pub counts : c'.count ≤ c.count + 1

insert_runs :
    (c : ConcurrentHashIndex) (key : KvBlockKey) (value : IndexSlotValue) (r : Inserted)
    → 4 * c.count ≤ 3 * c.capacity
    → c.mask ≡ c.capacity - 1
    → insert_from c.capacity
        (c.capacity - 1)
        (suc c.capacity)
        c.buckets
        (home (c.capacity - 1) key)
        (in_hand key value)
      ≡ some r
    → insert c key value
      ≡ some (record c { buckets = r.buckets; count = add64 c.count r.added }, r.result)
unfolding insert check_capacity
insert_runs c key value r room masked run =
    let run' =
      ap (λ m. insert_from c.capacity m (suc c.capacity) c.buckets (home m key) (in_hand key value))
        masked
      ∙ run in
    ground (arith, room, run')

module _ (c : ConcurrentHashIndex) (s : IsIndex c) (key : KvBlockKey) (value : IndexSlotValue)
    (room : 4 * c.count ≤ 3 * c.capacity) where
  insert_update :
      (i : ℕ)
      → i < c.capacity
      → (c.buckets i).occupied ≡ true
      → (c.buckets i).key ≡ key
      → (c' : ConcurrentHashIndex) × (insert c key value ≡ some (c', ok tt))
        × IsInserted c key value c'
  unfolding get
  insert_update i li o same =
      let n = c.capacity in
      let at_home = home (n - 1) in
      let t = c.buckets in
      let lh = at_home_lt c s (t i).key in
      let start : gap n (at_home (t i).key) (at_home (t i).key) ≡ 0 = ground (arith, lh) in
      let run =
        insert_from_update n s.exponent s.power s.two s.small at_home (suc n) t i
          (at_home (t i).key) (gap n (at_home (t i).key) i) (in_hand key value) s.table li lh lh o
          (sym same) (sym start) refl (omega (arith, start))
          (omega (arith, gap_lt n (at_home (t i).key) i lh li)) in
      let run' =
        ap (λ j. insert_from n (n - 1) (suc n) t (at_home j) (in_hand key value)) (sym same)
        ∙ run in
      let t' = revalued t i value in
      let table' = IsTable-revalued n at_home t i value s.table in
      let count' = occ_count-put n t i (record (t i) { value = value }) li in
      let c' : ConcurrentHashIndex = record c { buckets = t'; count = add64 c.count 0 } in
      let fits : add64 c.count 0 ≡ c.count = omega (arith, room, s.small) in
      let new_has : Has n t' key value =
        Has-put_new n t i (record (t i) { value = value }) key value li
          (record { stored = o; same_key = same; same_value = refl }) in
      (
        c',
        insert_runs c key value (record { buckets = t'; added = 0; result = ok tt }) room s.masked
            run',
        record {
          sound = record {
            exponent = s.exponent;
            power = s.power;
            two = s.two;
            small = s.small;
            masked = s.masked;
            table = table';
            counted = omega (arith, fits, s.counted, count');
          };
          same_capacity = refl;
          gets = λ j. elim (Bool-cases (key_eq key j)) [
            | inl mine ↦ rw mine (
                subst (λ y. get c' y ≡ some (ok value)) (key_eq_of key j mine)
                  (get-Has c s t' key value table' new_has))
            | inr other ↦ rw other (
                get_agrees c s t t' j s.table table'
                  (λ w has. elim (Has-put_old n t i (record (t i) { value = value }) j w has) [
                    | inl y ↦ y
                    | inr m ↦ absurd (key_differs key j other (sym same ∙ m.same_key))
                  ])
                  (λ w has. elim (Has-put_only n t i (record (t i) { value = value }) j w has) [
                    | inl (a, la, x, m) ↦ (a, la, m)
                    | inr m ↦ absurd (key_differs key j other (sym same ∙ m.same_key))
                  ]))
          ];
          counts = omega (arith, fits);
        },
      )

  insert_store :
      Absent c.capacity c.buckets key
      → (c' : ConcurrentHashIndex) × (insert c key value ≡ some (c', ok tt))
        × IsInserted c key value c'
  unfolding get
  insert_store absent =
      let n = c.capacity in
      let at_home = home (n - 1) in
      let t = c.buckets in
      let x = at_home key in
      let lx = at_home_lt c s key in
      let (e, le, free) = occ_count_free n t (omega (arith, room, s.counted, s.two)) in
      let carried : IsCarried n at_home t x (in_hand key value) = record {
        stored = refl;
        distance = ground (arith, lx);
        follows = λ p lp meets. omega arith;
        absent = absent;
      } in
      let near = gap_lt n x e lx le in
      let (r, run, stored) =
        insert_from-IsStored n s.exponent s.power s.two s.small at_home (at_home_lt c s) (suc n) t x
          (in_hand key value) e s.table carried lx le free (omega (arith, near))
          (omega (arith, near)) in
      let c' : ConcurrentHashIndex = record c {
        buckets = r.buckets;
        count = add64 c.count r.added;
      } in
      let fits : add64 c.count r.added ≡ c.count + 1 = omega (arith, room, s.small, stored.added) in
      (
        c',
        insert_runs c key value r room s.masked run ∙ ap (λ y. some (c', y)) stored.succeeds,
        record {
          sound = record {
            exponent = s.exponent;
            power = s.power;
            two = s.two;
            small = s.small;
            masked = s.masked;
            table = stored.table;
            counted = omega (arith, fits, s.counted, stored.counted);
          };
          same_capacity = refl;
          gets = λ j. elim (Bool-cases (key_eq key j)) [
            | inl mine ↦ rw mine (
                subst (λ y. get c' y ≡ some (ok value)) (key_eq_of key j mine)
                  (get-Has c s r.buckets key value stored.table stored.has_new))
            | inr other ↦ rw other (
                get_agrees c s t r.buckets j s.table stored.table (stored.has_old j) (λ w has.
                  elim (stored.has_only j w has) [
                    | inl old ↦ old
                    | inr m ↦ absurd (key_differs key j other m.0)
                  ]))
          ];
          counts = omega (arith, fits);
        },
      )

  -- An insertion below the load limit ends and succeeds; afterwards the key has the value, every other key
  -- what it had, and the index is sound.
  insert-IsInserted :
      (c' : ConcurrentHashIndex) × (insert c key value ≡ some (c', ok tt))
      × IsInserted c key value c'
  insert-IsInserted = elim (find_slot c.capacity c.capacity c.buckets key (omega arith)) [
    | inl (i, li, o, same) ↦ insert_update i li o same
    | inr absent ↦ insert_store absent
  ]

-- A sequence of insertions, each of which must succeed.
unfoldable pub insert_all :
    ConcurrentHashIndex → List (KvBlockKey × IndexSlotValue) → Option ConcurrentHashIndex
insert_all c [] = some c
insert_all c ((key, value) ∷ xs) = elim (insert c key value) [
  | none ↦ none
  | some (c', ok _) ↦ insert_all c' xs
  | some (c', err _) ↦ none
]

-- The value that was inserted last for a key.
abbrev pub latest : List (KvBlockKey × IndexSlotValue) → KvBlockKey → Option IndexSlotValue
latest [] j = none
latest ((key, value) ∷ xs) j = elim (latest xs j) [
  | some w ↦ some w
  | none ↦ if key_eq key j then some value else none
]

-- Insertions that stay below the load limit all end and succeed and keep the index sound; afterwards a lookup
-- ends and returns what was inserted last for its key, or else what it returned before.
pub insert_all_refines_map :
    (c : ConcurrentHashIndex) (xs : List (KvBlockKey × IndexSlotValue)) (j : KvBlockKey)
    → IsIndex c
    → 4 * (c.count + length xs) ≤ 3 * c.capacity
    → (c' : ConcurrentHashIndex) × (insert_all c xs ≡ some c')
      × IsIndex c'
      × (get c' j ≡ elim (latest xs j) [ some v ↦ some (ok v) | none ↦ get c j ])
unfolding insert_all
insert_all_refines_map c [] j s room = (c, refl, s, refl)
insert_all_refines_map c ((key, value) ∷ xs) j s room =
    let (c1, run, one) = insert-IsInserted c s key value (omega (arith, room)) in
    let (c2, runs, sound, gets) =
      insert_all_refines_map c1 xs j one.sound
        (omega (arith, room, one.counts, one.same_capacity)) in
    (c2, ground (arith, run, runs), sound, ground (arith, gets, one.gets j))
