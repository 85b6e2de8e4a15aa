-- ===== src/HashIndex/Updates.antt =====
-- A key that is in the index of src/index/src/hash_index.rs gets a new value.
use virthub.Common.{
  ℕ, zero, suc, ◌+◌, ◌-◌, ◌*◌, ◌^◌, ◌≤◌, ◌<◌, ◌≡◌, sym, ap, subst, ◌∙◌, true, false, some, ◌==◌,
  arith, Bool-cases, inl, inr,
}
use virthub.Common.Result.{ok}
use virthub.Eviction.{KvBlockKey, key_eq}
use virthub.HashIndex.{HashIndexBucket, IndexSlotValue, Buckets, put, insert_from}
use virthub.HashIndex.Slots.{
  next, gap, gap_lt, gap_next, gap_nearer, gap_zero, next_lt, reach, IsTable, path_full, key_eq_of,
  key_eq_same,
}
use virthub.HashIndex.Tables.{put_there, put_here}
use virthub.HashIndex.Inserts.{on, keep_step}

abbrev pub revalued : Buckets → ℕ → IndexSlotValue → Buckets
revalued t i value = put t i (record (t i) { value = value })

same_slot :
    (t : Buckets) (i : ℕ) (value : IndexSlotValue) (j : ℕ)
    → ((revalued t i value j).occupied ≡ (t j).occupied)
      × ((revalued t i value j).probe_distance ≡ (t j).probe_distance)
      × ((revalued t i value j).key ≡ (t j).key)
same_slot t i value j = elim (Bool-cases (j == i)) [
  | inl here ↦
      let same : j ≡ i = ground (arith, here) in
      let now = put_here t i (record (t i) { value = value }) j same in
      (
        ap (λ b. b.occupied) now ∙ ap (λ y. (t y).occupied) (sym same),
        ap (λ b. b.probe_distance) now ∙ ap (λ y. (t y).probe_distance) (sym same),
        ap (λ b. b.key) now ∙ ap (λ y. (t y).key) (sym same),
      )
  | inr other ↦
      let now = put_there t i (record (t i) { value = value }) j other in
      (ap (λ b. b.occupied) now, ap (λ b. b.probe_distance) now, ap (λ b. b.key) now)
]

reach_same :
    (b c : HashIndexBucket)
    → b.occupied ≡ c.occupied
    → b.probe_distance ≡ c.probe_distance
    → reach b ≡ reach c
reach_same b c e f = ground (arith, e, f)

pub IsTable-revalued :
    (n : ℕ) (at_home : KvBlockKey → ℕ) (t : Buckets) (i : ℕ) (value : IndexSlotValue)
    → IsTable n at_home t
    → IsTable n at_home (revalued t i value)
IsTable-revalued n at_home t i value h =
    let s = same_slot t i value in
    record {
      distance = λ j lj o.
          (s j).1 ∙ h.distance j lj (sym (s j).0 ∙ o) ∙ ap (λ y. gap n (at_home y) j) (sym (s j).2);
      ordered = λ j lj o.
          let old = h.ordered j lj (sym (s (next n j)).0 ∙ o) in
          let reaches = reach_same (revalued t i value j) (t j) (s j).0 (s j).1 in
          omega (arith, old, reaches, (s (next n j)).1);
      unique = λ a b la lb oa ob e.
          h.unique a b la lb (sym (s a).0 ∙ oa) (sym (s b).0 ∙ ob) (sym (s a).2 ∙ e ∙ (s b).2);
    }

module _ (n k : ℕ) (pow : n ≡ 2 ^ k) (two : 1 < n) (small : 2 * n ≤ 2 ^ 16)
    (at_home : KvBlockKey → ℕ) where
  pub insert_from_update :
      (fuel : ℕ) (t : Buckets) (i x m : ℕ) (cur : HashIndexBucket)
      → IsTable n at_home t
      → i < n
      → x < n
      → at_home (t i).key < n
      → (t i).occupied ≡ true
      → cur.key ≡ (t i).key
      → cur.probe_distance ≡ gap n (at_home (t i).key) x
      → gap n x i ≡ m
      → gap n (at_home (t i).key) x + m ≡ gap n (at_home (t i).key) i
      → m < fuel
      → insert_from n (n - 1) fuel t x cur
        ≡ some record { buckets = revalued t i cur.value; added = 0; result = ok tt }
  unfolding insert_from
  insert_from_update zero t i x m cur h li lx lh occ ck cd e sum enough =
      absurd (omega (arith, enough))
  insert_from_update (suc fuel) t i x zero cur h li lx lh occ ck cd e sum enough =
      let here : x ≡ i = gap_zero n x i lx li e in
      let self : key_eq (t i).key cur.key ≡ true = key_eq_same (t i).key cur.key (sym ck) in
      subst
        (λ y.
          insert_from n (n - 1) (suc fuel) t y cur
          ≡ some record { buckets = revalued t i cur.value; added = 0; result = ok tt })
        (sym here) (ground (arith, occ, self))
  insert_from_update (suc fuel) t i x (suc m) cur h li lx lh occ ck cd e sum enough =
      let apart : (x == i) ≡ false = ground (arith, e) in
      let path = path_full n at_home t i x (suc m) h li lx lh occ e sum in
      let nearer = gap_nearer n x i lx li apart in
      let far = gap_lt n (at_home (t i).key) i lh li in
      let step = gap_next n (at_home (t i).key) x lh lx (omega (arith, sum, far)) in
      let rest =
        insert_from_update fuel t i (next n x) m (on cur) h li (next_lt n x lx) lh occ ck
          (omega (arith, cd, step)) (omega (arith, nearer, e)) (omega (arith, step, sum))
          (omega (arith, enough)) in
      let differs : key_eq (t x).key cur.key ≡ false =
        elim (Bool-cases (key_eq (t x).key cur.key)) [
          | inr other ↦ other
          | inl same ↦ absurd (
              ground (
                arith,
                apart,
                h.unique x i lx li path.0 occ (key_eq_of (t x).key cur.key same ∙ ck),
              ))
        ] in
      keep_step n k pow two small fuel t x cur lx path.0 (omega (arith, path.1, cd)) differs
        (omega (arith, cd, sum, far))
      ∙ rest
