-- ===== src/HashIndex/Stores.antt =====
-- A key that is not in the index of src/index/src/hash_index.rs is stored.
use virthub.Common.{
  ℕ, zero, suc, ◌+◌, ◌-◌, ◌*◌, ◌^◌, ◌≤◌, ◌<◌, ◌≡◌, refl, sym, ap, subst, ◌∙◌, true, false, some,
  ltb, ◌==◌, arith, Bool-cases, inl, inr,
}
use virthub.Common.Result.{ok}
use virthub.Eviction.{KvBlockKey, key_eq}
use virthub.HashIndex.{HashIndexBucket, Buckets, put, Inserted, insert_from}
use virthub.HashIndex.Slots.{
  next, gap, gap_next, gap_nearer, next_lt, next_injective, reach, IsTable, Has, key_eq_of,
}
use virthub.HashIndex.Tables.{
  occ_count-put, IsCarried, put_there, put_here, key_eq_sym, IsTable-put, Has-put_new, Has-put_old,
  Has-put_only,
}
use virthub.HashIndex.Inserts.{on, stop, keep_step, swap_step, IsStored}

module _ (n k : ℕ) (pow : n ≡ 2 ^ k) (two : 1 < n) (small : 2 * n ≤ 2 ^ 16)
    (at_home : KvBlockKey → ℕ) (homes : (j : KvBlockKey) → at_home j < n) where
  IsCarried-keep :
      (t : Buckets) (x : ℕ) (cur : HashIndexBucket)
      → x < n
      → IsCarried n at_home t x cur
      → (t x).occupied ≡ true
      → cur.probe_distance ≤ (t x).probe_distance
      → cur.probe_distance + 1 < n
      → IsCarried n at_home t (next n x) (on cur)
  IsCarried-keep t x cur lx c occ near far = record {
    stored = c.stored;
    distance = omega (
      arith,
      c.distance,
      gap_next n (at_home cur.key) x (homes cur.key) lx (omega (arith, c.distance, far)),
    );
    follows = λ p lp meets.
        let same : p ≡ x = next_injective n p x lp lx meets in
        let full : reach (t x) ≡ (t x).probe_distance + 1 = ground (arith, occ) in
        omega (arith, near, full, ap (λ y. reach (t y)) same);
    absent = c.absent;
  }

  IsCarried-swap :
      (t : Buckets) (x : ℕ) (cur : HashIndexBucket)
      → x < n
      → IsTable n at_home t
      → IsCarried n at_home t x cur
      → (t x).occupied ≡ true
      → (t x).probe_distance < cur.probe_distance
      → cur.probe_distance < n
      → IsCarried n at_home (put t x cur) (next n x) (on (t x))
  IsCarried-swap t x cur lx h c occ near far = record {
    stored = occ;
    distance =
        let d = h.distance x lx occ in
        omega (
          arith,
          d,
          gap_next n (at_home (t x).key) x (homes (t x).key) lx (omega (arith, d, near, far)),
        );
    follows = λ p lp meets.
        let same : p ≡ x = next_injective n p x lp lx meets in
        let full : reach (put t x cur p) ≡ cur.probe_distance + 1 =
          ap reach (put_here t x cur p same) ∙ ground (arith, c.stored) in
        omega (arith, near, full);
    absent = λ i li o. elim (Bool-cases (i == x)) [
      | inl here ↦
          let same : i ≡ x = ground (arith, here) in
          subst (λ y. key_eq y.key (t x).key ≡ false) (sym (put_here t x cur i same))
            (key_eq_sym (t x).key cur.key (c.absent x lx occ))
      | inr other ↦
          let there = put_there t x cur i other in
          let oi = ap (λ y. y.occupied) (sym there) ∙ o in
          subst (λ y. key_eq y.key (t x).key ≡ false) (sym there)
            (elim (Bool-cases (key_eq (t i).key (t x).key)) [
              | inr f ↦ f
              | inl e ↦ absurd (
                  ground
                    (arith, other, h.unique i x li lx oi occ (key_eq_of (t i).key (t x).key e)))
            ])
    ];
  }

  IsStored-stop :
      (t : Buckets) (x : ℕ) (cur : HashIndexBucket)
      → x < n
      → IsTable n at_home t
      → IsCarried n at_home t x cur
      → (t x).occupied ≡ false
      → IsStored n at_home t cur (record { buckets = put t x cur; added = 1; result = ok tt })
  IsStored-stop t x cur lx h c free = record {
    added = refl;
    succeeds = refl;
    table = IsTable-put n two at_home t x cur h c (ground (arith, free));
    has_new =
        Has-put_new n t x cur cur.key cur.value lx
          (record { stored = c.stored; same_key = refl; same_value = refl });
    has_old = λ key value has. elim (Has-put_old n t x cur key value has) [
      | inl still ↦ still
      | inr m ↦ absurd (ground (arith, m.stored, free))
    ];
    has_only = λ key value has. elim (Has-put_only n t x cur key value has) [
      | inl (i, li, other, m) ↦ inl (i, li, m)
      | inr m ↦ inr (m.same_key, m.same_value)
    ];
    counted = ground (arith, occ_count-put n t x cur lx, free, c.stored);
  }

  IsStored-keep :
      (t : Buckets) (cur : HashIndexBucket) (r : Inserted)
      → IsStored n at_home t (on cur) r
      → IsStored n at_home t cur r
  IsStored-keep t cur r s = record {
    added = s.added;
    succeeds = s.succeeds;
    table = s.table;
    has_new = s.has_new;
    has_old = s.has_old;
    has_only = s.has_only;
    counted = s.counted;
  }

  IsStored-swap :
      (t : Buckets) (x : ℕ) (cur : HashIndexBucket) (r : Inserted)
      → x < n
      → IsCarried n at_home t x cur
      → (t x).occupied ≡ true
      → IsStored n at_home (put t x cur) (on (t x)) r
      → IsStored n at_home t cur r
  IsStored-swap t x cur r lx c occ s = record {
    added = s.added;
    succeeds = s.succeeds;
    table = s.table;
    has_new = s.has_old cur.key cur.value (
        Has-put_new n t x cur cur.key cur.value lx
          (record { stored = c.stored; same_key = refl; same_value = refl }));
    has_old = λ key value has. elim (Has-put_old n t x cur key value has) [
      | inl still ↦ s.has_old key value still
      | inr m ↦
          subst (λ v. Has n r.buckets key v) m.same_value
            (subst (λ j. Has n r.buckets j (t x).value) m.same_key s.has_new)
    ];
    has_only = λ key value has. elim (s.has_only key value has) [
      | inr old ↦ inl (x, lx, record { stored = occ; same_key = old.0; same_value = old.1 })
      | inl there ↦ elim (Has-put_only n t x cur key value there) [
        | inl (i, li, other, m) ↦ inl (i, li, m)
        | inr m ↦ inr (m.same_key, m.same_value)
      ]
    ];
    counted = ground (arith, occ_count-put n t x cur lx, occ, c.stored, s.counted);
  }

  -- The loop stores the entry in hand on its way to a free bucket.
  pub insert_from-IsStored :
      (fuel : ℕ) (t : Buckets) (x : ℕ) (cur : HashIndexBucket) (e : ℕ)
      → IsTable n at_home t
      → IsCarried n at_home t x cur
      → x < n
      → e < n
      → (t e).occupied ≡ false
      → cur.probe_distance + gap n x e < n
      → gap n x e < fuel
      → (r : Inserted) × (insert_from n (n - 1) fuel t x cur ≡ some r) × IsStored n at_home t cur r
  insert_from-IsStored zero t x cur e h c lx le free near enough = absurd (omega (arith, enough))
  insert_from-IsStored (suc fuel) t x cur e h c lx le free near enough =
      elim (Bool-cases (t x).occupied) [
        | inr here ↦
            (_, stop n k pow two small fuel t x cur here, IsStored-stop t x cur lx h c here)
        | inl occ ↦
            let apart : (x == e) ≡ false = elim (Bool-cases (x == e)) [
              | inr other ↦ other
              | inl same ↦ absurd (
                  ground (
                    arith,
                    occ,
                    free,
                    ap (λ y. (t y).occupied) (let p : x ≡ e = ground (arith, same) in p),
                  ))
            ] in
            let nearer = gap_nearer n x e lx le apart in
            let differs = c.absent x lx occ in
            let far : cur.probe_distance + 1 < n = omega (arith, near, nearer) in
            elim (Bool-cases (ltb (t x).probe_distance cur.probe_distance)) [
              | inr keeps ↦
                  let behind : cur.probe_distance ≤ (t x).probe_distance = ground (arith, keeps) in
                  let (r, run, s) =
                    insert_from-IsStored fuel t (next n x) (on cur) e h
                      (IsCarried-keep t x cur lx c occ behind far) (next_lt n x lx) le free
                      (omega (arith, near, nearer)) (omega (arith, enough, nearer)) in
                  (
                    r,
                    keep_step n k pow two small fuel t x cur lx occ behind differs
                          (omega (arith, far))
                        ∙ run,
                    IsStored-keep t cur r s,
                  )
              | inl swaps ↦
                  let ahead : (t x).probe_distance < cur.probe_distance = ground (arith, swaps) in
                  let away : (e == x) ≡ false = ground (arith, apart) in
                  let still = ap (λ y. y.occupied) (put_there t x cur e away) ∙ free in
                  let (r, run, s) =
                    insert_from-IsStored fuel (put t x cur) (next n x) (on (t x)) e
                      (IsTable-put n two at_home t x cur h c (ground (arith, occ, c.stored, ahead)))
                      (IsCarried-swap t x cur lx h c occ ahead (omega (arith, far)))
                      (next_lt n x lx) le still (omega (arith, near, nearer, ahead))
                      (omega (arith, enough, nearer)) in
                  (
                    r,
                    swap_step n k pow two small fuel t x cur lx occ ahead differs
                          (omega (arith, far))
                        ∙ run,
                    IsStored-swap t x cur r lx c occ s,
                  )
            ]
      ]
