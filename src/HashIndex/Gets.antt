-- ===== src/HashIndex/Gets.antt =====
-- What the lookups of src/index/src/hash_index.rs find in a table.
use virthub.Common.{
  ℕ, zero, suc, ◌+◌, ◌-◌, ◌*◌, ◌%◌, ◌^◌, ◌≤◌, ◌<◌, ◌≡◌, refl, sym, ap, ap₂, subst, ◌∙◌, true, false,
  some, ltb, ◌==◌, arith, Bool-cases, inl, inr,
}
use virthub.Common.Result.{ok, err}
use virthub.Eviction.{KvBlockKey, key_eq}
use virthub.HashIndex.{IndexSlotValue, key_not_found, Buckets, get_from}
use virthub.HashIndex.Slots.{
  next, gap, and-next, gap_lt, gap_next, gap_nearer, gap_zero, next_lt, IsTable, path_full, Absent,
  Has, key_eq_of, key_eq_same,
}

module _ (n k : ℕ) (pow : n ≡ 2 ^ k) (pos : 0 < n) (small : 2 * n ≤ 2 ^ 16)
    (at_home : KvBlockKey → ℕ) where
  get_step :
      (fuel : ℕ) (t : Buckets) (key : KvBlockKey) (x dist : ℕ)
      → x < n
      → (t x).occupied ≡ true
      → dist ≤ (t x).probe_distance
      → key_eq (t x).key key ≡ false
      → dist + 1 ≤ n
      → get_from n (n - 1) (suc fuel) t key x dist
        ≡ get_from n (n - 1) fuel t key (next n x) (dist + 1)
  unfolding get_from
  get_step fuel t key x dist lx occ near other room =
      let narrow : (dist + 1) % 2 ^ 16 ≡ dist + 1 = omega (arith, room, small) in
      let cap : n % 2 ^ 16 ≡ n = omega (arith, small, pos) in
      let moved =
        ap₂ (λ j d. get_from n (n - 1) fuel t key j d) (and-next n k x pow pos lx) narrow in
      ground (arith, occ, near, other, narrow, cap, room) ∙ moved

  get_from_found :
      (fuel : ℕ) (t : Buckets) (i x m : ℕ)
      → IsTable n at_home t
      → i < n
      → x < n
      → at_home (t i).key < n
      → (t i).occupied ≡ true
      → gap n x i ≡ m
      → gap n (at_home (t i).key) x + m ≡ gap n (at_home (t i).key) i
      → m < fuel
      → get_from n (n - 1) fuel t (t i).key x (gap n (at_home (t i).key) x) ≡ some (ok (t i).value)
  unfolding get_from
  get_from_found zero t i x m h li lx lh occ e on enough = absurd (omega (arith, enough))
  get_from_found (suc fuel) t i x zero h li lx lh occ e on enough =
      let here : x ≡ i = gap_zero n x i lx li e in
      let self = key_eq_same (t i).key (t i).key refl in
      let far = h.distance i li occ in
      subst
        (λ y.
          get_from n (n - 1) (suc fuel) t (t i).key y (gap n (at_home (t i).key) y)
          ≡ some (ok (t i).value))
        (sym here) (ground (arith, occ, self, far))
  get_from_found (suc fuel) t i x (suc m) h li lx lh occ e on enough =
      let apart : (x == i) ≡ false = ground (arith, e) in
      let path = path_full n at_home t i x (suc m) h li lx lh occ e on in
      let nearer = gap_nearer n x i lx li apart in
      let far = gap_lt n (at_home (t i).key) i lh li in
      let step = gap_next n (at_home (t i).key) x lh lx (omega (arith, on, far)) in
      let rest =
        get_from_found fuel t i (next n x) m h li (next_lt n x lx) lh occ (omega (arith, nearer, e))
          (omega (arith, step, on)) (omega (arith, enough)) in
      let differs : key_eq (t x).key (t i).key ≡ false =
        elim (Bool-cases (key_eq (t x).key (t i).key)) [
          | inr other ↦ other
          | inl same ↦ absurd (
              ground
                (arith, apart, h.unique x i lx li path.0 occ (key_eq_of (t x).key (t i).key same)))
        ] in
      get_step fuel t (t i).key x (gap n (at_home (t i).key) x) lx path.0 path.1 differs
        (omega (arith, on, far))
      ∙ ap (λ d. get_from n (n - 1) fuel t (t i).key (next n x) d) (sym step)
      ∙ rest

  get_from_missing :
      (fuel : ℕ) (t : Buckets) (key : KvBlockKey) (x dist : ℕ)
      → Absent n t key
      → x < n
      → dist ≤ n
      → n < dist + fuel
      → get_from n (n - 1) fuel t key x dist ≡ some (err (key_not_found key))
  unfolding get_from
  get_from_missing zero t key x dist h lx ld enough = absurd (omega (arith, enough, ld))
  get_from_missing (suc fuel) t key x dist h lx ld enough = elim (Bool-cases (t x).occupied) [
    | inr free ↦ ground (arith, free)
    | inl occ ↦ elim (Bool-cases (ltb (t x).probe_distance dist)) [
      | inl near ↦ ground (arith, occ, near)
      | inr far ↦ elim (Bool-cases (dist == n)) [
        | inl last ↦ ground (arith, occ, far, last, h x lx occ, small, pos)
        | inr inner ↦
            let room : dist + 1 ≤ n = ground (arith, inner, ld) in
            get_step fuel t key x dist lx occ (ground (arith, far)) (h x lx occ) room
            ∙ get_from_missing fuel t key (next n x) (dist + 1) h (next_lt n x lx) room
                (omega (arith, enough))
      ]
    ]
  ]

  -- A lookup from the home of a key.
  pub get_from-Has :
      (t : Buckets) (key : KvBlockKey) (value : IndexSlotValue)
      → ((j : KvBlockKey) → at_home j < n)
      → IsTable n at_home t
      → Has n t key value
      → get_from n (n - 1) (suc n) t key (at_home key) 0 ≡ some (ok value)
  get_from-Has t key value homes h (i, li, m) =
      let lh = homes (t i).key in
      let start : gap n (at_home (t i).key) (at_home (t i).key) ≡ 0 = ground (arith, lh) in
      let found =
        get_from_found (suc n) t i (at_home (t i).key) (gap n (at_home (t i).key) i) h li lh lh
          m.stored refl (omega (arith, start))
          (omega (arith, gap_lt n (at_home (t i).key) i lh li)) in
      subst (λ j. get_from n (n - 1) (suc n) t j (at_home j) 0 ≡ some (ok value)) m.same_key
        (ap (λ d. get_from n (n - 1) (suc n) t (t i).key (at_home (t i).key) d) (sym start)
          ∙ found
          ∙ ap (λ v. some (ok v)) m.same_value)

  pub get_from-Absent :
      (t : Buckets) (key : KvBlockKey)
      → at_home key < n
      → Absent n t key
      → get_from n (n - 1) (suc n) t key (at_home key) 0 ≡ some (err (key_not_found key))
  get_from-Absent t key lh h =
      get_from_missing (suc n) t key (at_home key) 0 h lh (omega arith) (omega arith)
