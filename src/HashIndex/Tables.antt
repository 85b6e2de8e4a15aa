-- ===== src/HashIndex/Tables.antt =====
-- One write to the buckets of src/index/src/hash_index.rs: the table, its entries and their number.
use virthub.Common.{
  ℕ, zero, suc, ◌+◌, ◌≤◌, ◌<◌, ◌≡◌, ◌⊎◌, refl, sym, ap, subst, ◌∙◌, true, false, if◌then◌else◌,
  ◌==◌, arith, Bool-cases, inl, inr,
}
use virthub.Eviction.{KvBlockKey, key_eq}
use virthub.HashIndex.{HashIndexBucket, IndexSlotValue, Buckets, put}
use virthub.HashIndex.Slots.{next, gap, reach, IsTable, Absent, Matches, Has, key_eq_same}

abbrev pub occ_count : ℕ → Buckets → ℕ
occ_count zero t = 0
occ_count (suc m) t = (if (t m).occupied then 1 else 0) + occ_count m t

occ_count_above :
    (m : ℕ) (t : Buckets) (x : ℕ) (b : HashIndexBucket)
    → m ≤ x
    → occ_count m (put t x b) ≡ occ_count m t
occ_count_above zero t x b h = refl
occ_count_above (suc m) t x b h = ground (arith, h, occ_count_above m t x b (omega (arith, h)))

pub occ_count-put :
    (m : ℕ) (t : Buckets) (x : ℕ) (b : HashIndexBucket)
    → x < m
    → occ_count m (put t x b) + (if (t x).occupied then 1 else 0)
      ≡ occ_count m t + (if b.occupied then 1 else 0)
occ_count-put zero t x b h = absurd (omega (arith, h))
occ_count-put (suc m) t x b h = elim (Bool-cases (x == m)) [
  | inl last ↦
      let here : x ≡ m = ground (arith, last) in
      let below = occ_count_above m t x b (omega (arith, here)) in
      ground (arith, below, last, ap (λ i. (t i).occupied) here)
  | inr inner ↦ ground (arith, inner, occ_count-put m t x b (ground (arith, inner, h)))
]

-- While a bucket is free, the count is below the number of buckets, and the other way round.
pub occ_count_free :
    (m : ℕ) (t : Buckets) → occ_count m t < m → (e : ℕ) × (e < m) × ((t e).occupied ≡ false)
occ_count_free zero t h = absurd (omega (arith, h))
occ_count_free (suc m) t h = elim (Bool-cases (t m).occupied) [
  | inr free ↦ (m, omega arith, free)
  | inl full ↦
      let (e, lt, free) = occ_count_free m t (ground (arith, h, full)) in
      (e, omega (arith, lt), free)
]

-- An entry in hand at the index `x`.
pub record IsCarried (n : ℕ) (at_home : KvBlockKey → ℕ) (t : Buckets) (x : ℕ)
    (cur : HashIndexBucket) : Type 0 where
  pub stored : cur.occupied ≡ true
  pub distance : cur.probe_distance ≡ gap n (at_home cur.key) x
  pub follows : (p : ℕ) → p < n → next n p ≡ x → cur.probe_distance ≤ reach (t p)
  pub absent : Absent n t cur.key

pub key_eq_sym : (a b : KvBlockKey) → key_eq a b ≡ false → key_eq b a ≡ false
key_eq_sym a b h = ground (arith, h)

pub key_differs : (a b : KvBlockKey) → key_eq a b ≡ false → a ≡ b → ⊥
key_differs a b h e = ground (arith, h, key_eq_same a b e)

pub put_here : (t : Buckets) (x : ℕ) (b : HashIndexBucket) (j : ℕ) → j ≡ x → put t x b j ≡ b
put_here t x b j e = ground (arith, e)

pub put_there :
    (t : Buckets) (x : ℕ) (b : HashIndexBucket) (j : ℕ) → (j == x) ≡ false → put t x b j ≡ t j
put_there t x b j e = ground (arith, e)

pub near :
    (b c b' c' : HashIndexBucket)
    → b ≡ b'
    → c ≡ c'
    → b'.probe_distance ≤ reach c'
    → b.probe_distance ≤ reach c
near b c b' c' e f h =
    subst (λ y. y.probe_distance ≤ reach c) (sym e)
      (subst (λ y. b'.probe_distance ≤ reach y) (sym f) h)

module _ (n : ℕ) (two : 1 < n) (at_home : KvBlockKey → ℕ) where
  ordered-put :
      (t : Buckets) (x : ℕ) (cur : HashIndexBucket) (i : ℕ)
      → IsTable n at_home t
      → IsCarried n at_home t x cur
      → reach (t x) ≤ reach cur
      → i < n
      → (put t x cur (next n i)).occupied ≡ true
      → (put t x cur (next n i)).probe_distance ≤ reach (put t x cur i)
  ordered-put t x cur i h c far li o =
      let b = put t x cur (next n i) in
      let d = put t x cur i in
      elim (Bool-cases (i == x)) [
        | inl here ↦
            let same : i ≡ x = ground (arith, here) in
            let apart : (next n i == x) ≡ false = ground (arith, two, same) in
            let after = put_there t x cur (next n i) apart in
            let old = h.ordered i li (ap (λ y. y.occupied) (sym after) ∙ o) in
            near b d (t (next n i)) cur after (put_here t x cur i same)
              (omega (arith, old, far, ap (λ y. reach (t y)) same))
        | inr other ↦ elim (Bool-cases (next n i == x)) [
          | inl before ↦
              let meets : next n i ≡ x = ground (arith, before) in
              near b d cur (t i) (put_here t x cur (next n i) meets) (put_there t x cur i other)
                (c.follows i li meets)
          | inr away ↦
              let after = put_there t x cur (next n i) away in
              near b d (t (next n i)) (t i) after (put_there t x cur i other)
                (h.ordered i li (ap (λ y. y.occupied) (sym after) ∙ o))
        ]
      ]

  -- The entry in hand is another than every entry of the table.
  fresh :
      (t : Buckets) (x : ℕ) (cur : HashIndexBucket) (j : ℕ)
      → IsCarried n at_home t x cur
      → j < n
      → (j == x) ≡ false
      → (put t x cur j).occupied ≡ true
      → cur.key ≡ (put t x cur j).key
      → ⊥
  fresh t x cur j c lj other oj e =
      let there = put_there t x cur j other in
      key_differs (t j).key cur.key (c.absent j lj (ap (λ y. y.occupied) (sym there) ∙ oj))
        (ap (λ y. y.key) (sym there) ∙ sym e)

  unique-put :
      (t : Buckets) (x : ℕ) (cur : HashIndexBucket) (i j : ℕ)
      → IsTable n at_home t
      → IsCarried n at_home t x cur
      → i < n
      → j < n
      → (put t x cur i).occupied ≡ true
      → (put t x cur j).occupied ≡ true
      → (put t x cur i).key ≡ (put t x cur j).key
      → i ≡ j
  unique-put t x cur i j h c li lj oi oj e = elim (Bool-cases (i == x)) [
    | inl here ↦
        let hi : i ≡ x = ground (arith, here) in
        elim (Bool-cases (j == x)) [
          | inl there ↦ ground (arith, here, there)
          | inr other ↦
              absurd
                (fresh t x cur j c lj other oj (ap (λ y. y.key) (sym (put_here t x cur i hi)) ∙ e))
        ]
    | inr away ↦ elim (Bool-cases (j == x)) [
      | inl there ↦
          let hj : j ≡ x = ground (arith, there) in
          absurd
            (fresh t x cur i c li away oi (ap (λ y. y.key) (sym (put_here t x cur j hj)) ∙ sym e))
      | inr other ↦
          let pi = put_there t x cur i away in
          let pj = put_there t x cur j other in
          h.unique i j li lj (ap (λ y. y.occupied) (sym pi) ∙ oi)
            (ap (λ y. y.occupied) (sym pj) ∙ oj) (ap (λ y. y.key) (sym pi) ∙ e ∙ ap (λ y. y.key) pj)
    ]
  ]

  -- Put down where no entry farther from its home stands, the entry in hand makes a table again.
  pub IsTable-put :
      (t : Buckets) (x : ℕ) (cur : HashIndexBucket)
      → IsTable n at_home t
      → IsCarried n at_home t x cur
      → reach (t x) ≤ reach cur
      → IsTable n at_home (put t x cur)
  IsTable-put t x cur h c far = record {
    distance = λ i li o. elim (Bool-cases (i == x)) [
      | inl here ↦
          let same : i ≡ x = ground (arith, here) in
          subst (λ y. y.probe_distance ≡ gap n (at_home y.key) i) (sym (put_here t x cur i same))
            (c.distance ∙ ap (gap n (at_home cur.key)) (sym same))
      | inr other ↦
          let there = put_there t x cur i other in
          subst (λ y. y.probe_distance ≡ gap n (at_home y.key) i) (sym there)
            (h.distance i li (ap (λ y. y.occupied) (sym there) ∙ o))
    ];
    ordered = λ i li o. ordered-put t x cur i h c far li o;
    unique = λ i j li lj oi oj e. unique-put t x cur i j h c li lj oi oj e;
  }

pub Has-put_new :
    (n : ℕ) (t : Buckets) (x : ℕ) (b : HashIndexBucket) (key : KvBlockKey) (value : IndexSlotValue)
    → x < n
    → Matches b key value
    → Has n (put t x b) key value
Has-put_new n t x b key value lx m =
    (x, lx, subst (λ y. Matches y key value) (sym (put_here t x b x refl)) m)

pub Has-put_old :
    (n : ℕ) (t : Buckets) (x : ℕ) (b : HashIndexBucket) (key : KvBlockKey) (value : IndexSlotValue)
    → Has n t key value
    → Has n (put t x b) key value ⊎ Matches (t x) key value
Has-put_old n t x b key value (i, li, m) = elim (Bool-cases (i == x)) [
  | inl here ↦
      let same : i ≡ x = ground (arith, here) in inr (subst (λ y. Matches (t y) key value) same m)
  | inr other ↦ inl (i, li, subst (λ y. Matches y key value) (sym (put_there t x b i other)) m)
]

pub Has-put_only :
    (n : ℕ) (t : Buckets) (x : ℕ) (b : HashIndexBucket) (key : KvBlockKey) (value : IndexSlotValue)
    → Has n (put t x b) key value
    → ((i : ℕ) × (i < n) × ((i == x) ≡ false) × Matches (t i) key value) ⊎ Matches b key value
Has-put_only n t x b key value (i, li, m) = elim (Bool-cases (i == x)) [
  | inl here ↦
      let same : i ≡ x = ground (arith, here) in
      inr (subst (λ y. Matches y key value) (put_here t x b i same) m)
  | inr other ↦ inl (i, li, other, subst (λ y. Matches y key value) (put_there t x b i other) m)
]
