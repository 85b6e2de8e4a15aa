-- ===== src/HashIndex/Slots.antt =====
-- The ring of buckets of src/index/src/hash_index.rs and what makes a table of it.
use virthub.Common.{
  ℕ, zero, suc, ◌+◌, ◌-◌, ◌%◌, ◌^◌, ◌≤◌, ◌<◌, ◌≡◌, sym, ap, subst, ◌∙◌, true, false, if◌then◌else◌,
  leb, ◌==◌, bit_and, arith, Bool-cases, inl, inr,
}
use virthub.Common.Bits.{and_ones}
use native.Mathlib.Nat.{mod-eq_of_lt, mod-lt, mod-eq-sub-mod, zero-mod}
use virthub.Eviction.{KvBlockKey, key_eq}
use virthub.HashIndex.{HashIndexBucket, IndexSlotValue, Buckets, home, hash_key}

-- The index after `i` in a ring of `n`, and how far `i` is from `h` on.
abbrev pub next : ℕ → ℕ → ℕ
next n i = if i + 1 == n then 0 else i + 1

abbrev pub gap : (n h i : ℕ) → ℕ
gap n h i = if leb h i then i - h else i + n - h

pub and-next : (n k i : ℕ) → n ≡ 2 ^ k → 0 < n → i < n → bit_and (i + 1) (n - 1) ≡ next n i
and-next n k i pow pos lt =
    let masked =
      and_ones k (i + 1) (n - 1) (omega (arith, pow, pos)) ∙ ap (λ m. (i + 1) % m) (sym pow) in
    elim (Bool-cases (i + 1 == n)) [
      | inl last ↦
          let whole : i + 1 ≡ n = ground (arith, last) in
          let none_left : n % n ≡ (n - n) % n = mod-eq-sub-mod (omega arith) in
          let nothing : n - n ≡ 0 = omega arith in
          rw last (masked ∙ ap (◌% n) whole ∙ none_left ∙ ap (◌% n) nothing ∙ zero-mod n)
      | inr inner ↦ rw inner (masked ∙ mod-eq_of_lt (ground (arith, inner)))
    ]

pub home_lt : (n k : ℕ) (key : KvBlockKey) → n ≡ 2 ^ k → 0 < n → home (n - 1) key < n
unfolding home
home_lt n k key pow pos =
    let masked = and_ones k (hash_key key) (n - 1) (omega (arith, pow, pos)) in
    let bound : hash_key key % 2 ^ k < 2 ^ k = mod-lt (hash_key key) (omega (arith, pow, pos)) in
    omega (arith, masked, bound, pow)

pub gap_lt : (n h i : ℕ) → h < n → i < n → gap n h i < n
gap_lt n h i a b = ground arith

-- One step on is one step farther from everywhere behind and one step nearer to everything ahead.
pub gap_next : (n h i : ℕ) → h < n → i < n → gap n h i + 1 < n → gap n h (next n i) ≡ gap n h i + 1
gap_next n h i a b c = ground arith

pub gap_nearer : (n i j : ℕ) → i < n → j < n → (i == j) ≡ false → gap n (next n i) j + 1 ≡ gap n i j
gap_nearer n i j a b c = ground arith

pub next_lt : (n i : ℕ) → i < n → next n i < n
next_lt n i h = ground arith

pub next_injective : (n i j : ℕ) → i < n → j < n → next n i ≡ next n j → i ≡ j
next_injective n i j a b e = ground arith

pub gap_zero : (n i j : ℕ) → i < n → j < n → gap n i j ≡ 0 → i ≡ j
gap_zero n i j a b e = ground arith

-- One more than the probe distance of an entry, and zero at an empty bucket.
abbrev pub reach : HashIndexBucket → ℕ
reach b = if b.occupied then b.probe_distance + 1 else 0

-- The buckets are a Robin Hood table: an entry stands as far from its home as it says, no entry is more than
-- one farther than the one before it, and no key stands twice.
pub record IsTable (n : ℕ) (at_home : KvBlockKey → ℕ) (t : Buckets) : Type 0 where
  pub distance :
      (i : ℕ) → i < n → (t i).occupied ≡ true → (t i).probe_distance ≡ gap n (at_home (t i).key) i
  pub ordered :
      (i : ℕ) → i < n → (t (next n i)).occupied ≡ true → (t (next n i)).probe_distance ≤ reach (t i)
  pub unique :
      (i j : ℕ)
      → i < n
      → j < n
      → (t i).occupied ≡ true
      → (t j).occupied ≡ true
      → (t i).key ≡ (t j).key
      → i ≡ j

-- An entry at `i` and a slot `x` between its home and `i`: the slot is occupied by an entry that is at least as far
-- from its own home.
pub path_full :
    (n : ℕ) (at_home : KvBlockKey → ℕ) (t : Buckets) (i x m : ℕ)
    → IsTable n at_home t
    → i < n
    → x < n
    → at_home (t i).key < n
    → (t i).occupied ≡ true
    → gap n x i ≡ m
    → gap n (at_home (t i).key) x + m ≡ gap n (at_home (t i).key) i
    → ((t x).occupied ≡ true) × (gap n (at_home (t i).key) x ≤ (t x).probe_distance)
path_full n at_home t i x zero h li lx lh occ e on =
    let here : x ≡ i = gap_zero n x i lx li e in
    subst (λ y. ((t y).occupied ≡ true) × (gap n (at_home (t i).key) y ≤ (t y).probe_distance))
      (sym here) (occ, omega (arith, h.distance i li occ))
path_full n at_home t i x (suc m) h li lx lh occ e on =
    let apart : (x == i) ≡ false = ground (arith, e) in
    let nearer = gap_nearer n x i lx li apart in
    let far = gap_lt n (at_home (t i).key) i lh li in
    let step = gap_next n (at_home (t i).key) x lh lx (omega (arith, on, far)) in
    let rest =
      path_full n at_home t i (next n x) m h li (next_lt n x lx) lh occ (omega (arith, nearer, e))
        (omega (arith, step, on)) in
    ground (arith, h.ordered x lx rest.0, rest.1, step)

abbrev pub Absent : ℕ → Buckets → KvBlockKey → Type 0
Absent n t key = (i : ℕ) → i < n → (t i).occupied ≡ true → key_eq (t i).key key ≡ false

-- The bucket holds the key with the value.
pub record Matches (b : HashIndexBucket) (key : KvBlockKey) (value : IndexSlotValue) : Type 0 where
  pub stored : b.occupied ≡ true
  pub same_key : b.key ≡ key
  pub same_value : b.value ≡ value

-- The key stands in the table with the value.
abbrev pub Has : ℕ → Buckets → KvBlockKey → IndexSlotValue → Type 0
Has n t key value = (i : ℕ) × (i < n) × Matches (t i) key value

pub key_eq_of : (a b : KvBlockKey) → key_eq a b ≡ true → a ≡ b
key_eq_of a b h = ground (arith, h)

pub key_eq_same : (a b : KvBlockKey) → a ≡ b → key_eq a b ≡ true
key_eq_same a b h = ground (arith, h)
