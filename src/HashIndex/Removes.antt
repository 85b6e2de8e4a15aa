-- ===== src/HashIndex/Removes.antt =====
-- The two loops of `remove` of src/index/src/hash_index.rs.
use virthub.Common.{
  not, ◌||◌, ℕ, zero, suc, ◌+◌, ◌-◌, ◌*◌, ◌%◌, ◌^◌, ◌≤◌, ◌<◌, ◌≡◌, refl, sym, ap, ap₂, subst,
  fun_ext, ◌∙◌, true, false, none, some, ltb, ◌==◌, arith, Bool-cases, inl, inr,
}
use virthub.Eviction.{KvBlockKey, key_eq}
use virthub.HashIndex.{IndexSlotValue, Buckets, put, empty, shift_from, find_from}
use virthub.HashIndex.Slots.{
  next, gap, and-next, gap_lt, gap_next, gap_nearer, gap_zero, next_lt, IsTable, path_full, Absent,
  Has, key_eq_of, key_eq_same,
}
use virthub.HashIndex.Tables.{occ_count, put_there}
use virthub.HashIndex.Shifts.{
  IsHole, IsHole-moved, moved, nearer, moved-Has, Has-moved, occ_count-moved,
}

-- A table again, with the entries of the table with the hole.
pub record IsShifted (n : ℕ) (at_home : KvBlockKey → ℕ) (s r : Buckets) : Type 0 where
  pub table : IsTable n at_home r
  pub there : (key : KvBlockKey) (value : IndexSlotValue) → Has n s key value → Has n r key value
  pub back : (key : KvBlockKey) (value : IndexSlotValue) → Has n r key value → Has n s key value
  pub counted : occ_count n r ≡ occ_count n s

-- The writes of one round.
abbrev shifted : Buckets → (hole curr : ℕ) → Buckets
shifted t hole curr = put (put t curr (nearer (t curr))) hole (nearer (t curr))

shifted_lem :
    (t : Buckets) (hole curr j : ℕ)
    → (curr == hole) ≡ false
    → put (shifted t hole curr) curr empty j ≡ moved (put t hole empty) hole curr j
shifted_lem t hole curr j e = ground (arith, e)

module _ (n k : ℕ) (pow : n ≡ 2 ^ k) (two : 1 < n) (at_home : KvBlockKey → ℕ)
    (homes : (j : KvBlockKey) → at_home j < n) where
  IsTable-hole :
      (s : Buckets) (hole h : ℕ)
      → IsHole n at_home s hole h
      → ((s (next n hole)).occupied ≡ true → (s (next n hole)).probe_distance ≡ 0)
      → IsTable n at_home s
  IsTable-hole s hole h w at_end = record {
    distance = w.distance;
    ordered = λ i li o. elim (Bool-cases (i == hole)) [
      | inr other ↦ w.ordered i li other o
      | inl here ↦
          let same : i ≡ hole = ground (arith, here) in
          let none_far = at_end (ap (λ y. (s (next n y)).occupied) (sym same) ∙ o) in
          omega (arith, none_far, ap (λ y. (s (next n y)).probe_distance) same)
    ];
    unique = w.unique;
  }

  pub shift_from-IsShifted :
      (fuel : ℕ) (t : Buckets) (hole h e : ℕ)
      → IsHole n at_home (put t hole empty) hole h
      → hole < n
      → e < n
      → (put t hole empty e).occupied ≡ false
      → (e == hole) ≡ false
      → gap n (next n hole) e < fuel
      → (r : Buckets) × (shift_from (n - 1) fuel t hole (next n hole) ≡ some r)
        × IsShifted n at_home (put t hole empty) r
  unfolding shift_from
  shift_from-IsShifted zero t hole h e w lh le free ne enough = absurd (omega (arith, enough))
  shift_from-IsShifted (suc fuel) t hole h e w lh le free ne enough =
      let c = next n hole in
      let s = put t hole empty in
      let lc = next_lt n hole lh in
      let off : (c == hole) ≡ false = ground (arith, two, lh) in
      let same : s c ≡ t c = put_there t hole empty c off in
      let occ_same = ap (λ y. y.occupied) same in
      let pd_same = ap (λ y. y.probe_distance) same in
      elim (Bool-cases (not (t c).occupied || (t c).probe_distance == 0)) [
        | inl ends ↦ (
          s,
          rw ends refl,
          record {
            table = IsTable-hole s hole h w (λ o. ground (arith, ends, o, occ_same, pd_same));
            there = λ key value has. has;
            back = λ key value has. has;
            counted = refl;
          },
        )
        | inr goes ↦
            let occ : (s c).occupied ≡ true = ground (arith, goes, occ_same) in
            let far : 0 < (s c).probe_distance = ground (arith, goes, pd_same) in
            let t1 = shifted t hole c in
            let path : put t1 c empty ≡ moved s hole c =
              fun_ext (λ j. shifted_lem t hole c j off) in
            let back_path = sym path in
            let apart : (c == e) ≡ false = elim (Bool-cases (c == e)) [
              | inr f ↦ f
              | inl f ↦
                  let p : c ≡ e = ground (arith, f) in
                  absurd (ground (arith, occ, free, ap (λ y. (s y).occupied) p))
            ] in
            let apart' : (e == c) ≡ false = ground (arith, apart) in
            let still =
              ap (λ y. y.occupied)
                (put_there (put s hole (nearer (s c))) c empty e apart'
                  ∙ put_there s hole (nearer (s c)) e ne)
              ∙ free in
            let (r, run, sh) =
              shift_from-IsShifted fuel t1 c (s c).probe_distance e
                (subst (λ y. IsHole n at_home y c (s c).probe_distance) back_path
                  (IsHole-moved n two at_home homes s hole h lh w occ far))
                lc le (ap (λ y. (y e).occupied) path ∙ still) apart'
                (omega (arith, enough, gap_nearer n c e lc le apart)) in
            let done = subst (λ y. IsShifted n at_home y r) path sh in
            (
              r,
              rw goes (
                  ap (λ i. shift_from (n - 1) fuel t1 c i)
                    (and-next n k c pow (omega (arith, two)) lc)
                  ∙ run),
              record {
                table = done.table;
                there = λ key value has.
                    done.there key value
                      (Has-moved n two at_home homes s hole h lh w occ far key value has);
                back = λ key value has.
                    moved-Has n two at_home homes s hole h lh w occ far key value
                      (done.back key value has);
                counted = done.counted ∙ occ_count-moved n two at_home homes s hole h lh w occ far;
              },
            )
      ]

  find_step :
      (fuel : ℕ) (t : Buckets) (key : KvBlockKey) (x dist : ℕ)
      → 2 * n ≤ 2 ^ 16
      → x < n
      → (t x).occupied ≡ true
      → dist ≤ (t x).probe_distance
      → key_eq (t x).key key ≡ false
      → dist < n
      → find_from (n - 1) (suc fuel) t key x dist
        ≡ find_from (n - 1) fuel t key (next n x) (dist + 1)
  unfolding find_from
  find_step fuel t key x dist small lx occ near other room =
      let narrow : (dist + 1) % 2 ^ 16 ≡ dist + 1 = omega (arith, room, small) in
      let on =
        ap₂ (λ j d. find_from (n - 1) fuel t key j d) (and-next n k x pow (omega (arith, two)) lx)
          narrow in
      ground (arith, occ, near, other) ∙ on

  pub find_from_found :
      (fuel : ℕ) (t : Buckets) (i x m : ℕ)
      → 2 * n ≤ 2 ^ 16
      → IsTable n at_home t
      → i < n
      → x < n
      → (t i).occupied ≡ true
      → gap n x i ≡ m
      → gap n (at_home (t i).key) x + m ≡ gap n (at_home (t i).key) i
      → m < fuel
      → find_from (n - 1) fuel t (t i).key x (gap n (at_home (t i).key) x) ≡ some (some i)
  unfolding find_from
  find_from_found zero t i x m small h li lx occ e on enough = absurd (omega (arith, enough))
  find_from_found (suc fuel) t i x zero small h li lx occ e on enough =
      let here : x ≡ i = gap_zero n x i lx li e in
      let self = key_eq_same (t i).key (t i).key refl in
      let far = h.distance i li occ in
      subst
        (λ y.
          find_from (n - 1) (suc fuel) t (t i).key y (gap n (at_home (t i).key) y) ≡ some (some i))
        (sym here) (ground (arith, occ, self, far))
  find_from_found (suc fuel) t i x (suc m) small h li lx occ e on enough =
      let lh = homes (t i).key in
      let apart : (x == i) ≡ false = ground (arith, e) in
      let path = path_full n at_home t i x (suc m) h li lx lh occ e on in
      let nearer_by = gap_nearer n x i lx li apart in
      let far = gap_lt n (at_home (t i).key) i lh li in
      let step = gap_next n (at_home (t i).key) x lh lx (omega (arith, on, far)) in
      let rest =
        find_from_found fuel t i (next n x) m small h li (next_lt n x lx) occ
          (omega (arith, nearer_by, e)) (omega (arith, step, on)) (omega (arith, enough)) in
      let differs : key_eq (t x).key (t i).key ≡ false =
        elim (Bool-cases (key_eq (t x).key (t i).key)) [
          | inr other ↦ other
          | inl same ↦ absurd (
              ground
                (arith, apart, h.unique x i lx li path.0 occ (key_eq_of (t x).key (t i).key same)))
        ] in
      find_step fuel t (t i).key x (gap n (at_home (t i).key) x) small lx path.0 path.1 differs
        (omega (arith, on, far))
      ∙ ap (λ d. find_from (n - 1) fuel t (t i).key (next n x) d) (sym step)
      ∙ rest

  pub find_from_missing :
      (fuel : ℕ) (t : Buckets) (key : KvBlockKey) (x dist : ℕ)
      → 2 * n ≤ 2 ^ 16
      → IsTable n at_home t
      → Absent n t key
      → x < n
      → n < dist + fuel
      → dist ≤ n
      → find_from (n - 1) fuel t key x dist ≡ some none
  unfolding find_from
  find_from_missing zero t key x dist small w h lx enough ld = absurd (omega (arith, enough, ld))
  find_from_missing (suc fuel) t key x dist small w h lx enough ld =
      elim (Bool-cases (t x).occupied) [
        | inr free ↦ ground (arith, free)
        | inl occ ↦ elim (Bool-cases (ltb (t x).probe_distance dist)) [
          | inl near ↦ ground (arith, occ, near)
          | inr far ↦
              let bound = gap_lt n (at_home (t x).key) x (homes (t x).key) lx in
              let reached : dist ≤ (t x).probe_distance = ground (arith, far) in
              let room : dist < n = omega (arith, reached, bound, w.distance x lx occ) in
              find_step fuel t key x dist small lx occ reached (h x lx occ) room
              ∙ find_from_missing fuel t key (next n x) (dist + 1) small w h (next_lt n x lx)
                  (omega (arith, enough)) (omega (arith, room))
        ]
      ]
