-- ===== src/HashIndex/Shifts.antt =====
-- The backward shift of `remove` of src/index/src/hash_index.rs: a table with a hole that moves on.
use virthub.Common.{
  ℕ, suc, ◌+◌, ◌-◌, ◌≤◌, ◌<◌, ◌≡◌, refl, sym, ap, subst, ◌∙◌, true, false, if◌then◌else◌, ◌==◌,
  arith, Bool-cases, inl, inr,
}
use virthub.Eviction.{KvBlockKey}
use virthub.HashIndex.{HashIndexBucket, IndexSlotValue, Buckets, put, empty}
use virthub.HashIndex.Slots.{next, gap, next_lt, next_injective, reach, Has, Matches}
use virthub.HashIndex.Tables.{occ_count, occ_count-put, put_here, put_there, near}

-- A table but for a free bucket at `hole`, where an entry `h` away from its home would keep the order.
pub record IsHole (n : ℕ) (at_home : KvBlockKey → ℕ) (s : Buckets) (hole h : ℕ) : Type 0 where
  pub free : (s hole).occupied ≡ false
  pub distance :
      (i : ℕ) → i < n → (s i).occupied ≡ true → (s i).probe_distance ≡ gap n (at_home (s i).key) i
  pub ordered :
      (i : ℕ)
      → i < n
      → (i == hole) ≡ false
      → (s (next n i)).occupied ≡ true
      → (s (next n i)).probe_distance ≤ reach (s i)
  pub unique :
      (i j : ℕ)
      → i < n
      → j < n
      → (s i).occupied ≡ true
      → (s j).occupied ≡ true
      → (s i).key ≡ (s j).key
      → i ≡ j
  pub before : (p : ℕ) → p < n → next n p ≡ hole → h ≤ reach (s p)
  pub after : (s (next n hole)).occupied ≡ true → (s (next n hole)).probe_distance ≤ h + 1

abbrev pub nearer : HashIndexBucket → HashIndexBucket
nearer b = record b { probe_distance = b.probe_distance - 1 }

-- The entry behind the hole moves into it.
abbrev pub moved : Buckets → (hole curr : ℕ) → Buckets
moved s hole curr = put (put s hole (nearer (s curr))) curr empty

gap_back : (n h p d : ℕ) → h < n → p < n → gap n h (next n p) ≡ suc d → gap n h p ≡ d
gap_back n h p d a b e = ground (arith, e)

module _ (n : ℕ) (two : 1 < n) (at_home : KvBlockKey → ℕ)
    (homes : (j : KvBlockKey) → at_home j < n) where
  module _ (s : Buckets) (hole h : ℕ) (lh : hole < n) (k : IsHole n at_home s hole h)
      (occ : (s (next n hole)).occupied ≡ true) (far : 0 < (s (next n hole)).probe_distance) where
    apart : (hole == next n hole) ≡ false
    apart = ground (arith, two, lh)

    -- What stands where after the move, and where it stood before.
    abbrev source : ℕ → ℕ
    source i = if i == hole then next n hole else i

    at_curr : (i : ℕ) → i ≡ next n hole → moved s hole (next n hole) i ≡ empty
    at_curr i e = put_here (put s hole (nearer (s (next n hole)))) (next n hole) empty i e

    at_hole : (i : ℕ) → i ≡ hole → moved s hole (next n hole) i ≡ nearer (s (next n hole))
    at_hole i e =
        put_there (put s hole (nearer (s (next n hole)))) (next n hole) empty i
          (ground (arith, e, apart))
        ∙ put_here s hole (nearer (s (next n hole))) i e

    elsewhere :
        (i : ℕ)
        → (i == next n hole) ≡ false
        → (i == hole) ≡ false
        → moved s hole (next n hole) i ≡ s i
    elsewhere i e f =
        put_there (put s hole (nearer (s (next n hole)))) (next n hole) empty i e
        ∙ put_there s hole (nearer (s (next n hole))) i f

    -- An entry after the move is one from before it.
    record CameFrom (i j : ℕ) : Type 0 where
      remains : (i == next n hole) ≡ false
      stored : (s j).occupied ≡ true
      same_key : (moved s hole (next n hole) i).key ≡ (s j).key
      same_value : (moved s hole (next n hole) i).value ≡ (s j).value
      inside : j < n

    came_from :
        (i : ℕ) → i < n → (moved s hole (next n hole) i).occupied ≡ true → CameFrom i (source i)
    came_from i li o = elim (Bool-cases (i == next n hole)) [
      | inl here ↦
          absurd (ground (arith, o, ap (λ b. b.occupied) (at_curr i (ground (arith, here)))))
      | inr other ↦ elim (Bool-cases (i == hole)) [
        | inl there ↦
            let now = at_hole i (ground (arith, there)) in
            subst (CameFrom i) (let p : next n hole ≡ source i = ground (arith, there) in p)
              record {
                remains = other;
                stored = occ;
                same_key = ap (λ b. b.key) now;
                same_value = ap (λ b. b.value) now;
                inside = next_lt n hole lh;
              }
        | inr away ↦
            let now = elsewhere i other away in
            subst (CameFrom i) (let p : i ≡ source i = ground (arith, away) in p) record {
              remains = other;
              stored = ap (λ b. b.occupied) (sym now) ∙ o;
              same_key = ap (λ b. b.key) now;
              same_value = ap (λ b. b.value) now;
              inside = li;
            }
      ]
    ]

    distance-moved :
        (i : ℕ)
        → i < n
        → (moved s hole (next n hole) i).occupied ≡ true
        → (moved s hole (next n hole) i).probe_distance
          ≡ gap n (at_home (moved s hole (next n hole) i).key) i
    distance-moved i li o = elim (Bool-cases (i == hole)) [
      | inl there ↦
          let same : i ≡ hole = ground (arith, there) in
          let now = at_hole i same in
          let c = s (next n hole) in
          let d = k.distance (next n hole) (next_lt n hole lh) occ in
          let back =
            gap_back n (at_home c.key) hole (c.probe_distance - 1) (homes c.key) lh
              (omega (arith, d, far)) in
          subst (λ b. b.probe_distance ≡ gap n (at_home b.key) i) (sym now)
            (sym back ∙ ap (gap n (at_home c.key)) (sym same))
      | inr away ↦
          let from = came_from i li o in
          let now = elsewhere i from.remains away in
          subst (λ b. b.probe_distance ≡ gap n (at_home b.key) i) (sym now)
            (k.distance i li (ap (λ b. b.occupied) (sym now) ∙ o))
    ]

    ordered-moved :
        (i : ℕ)
        → i < n
        → (i == next n hole) ≡ false
        → (moved s hole (next n hole) (next n i)).occupied ≡ true
        → (moved s hole (next n hole) (next n i)).probe_distance
          ≤ reach (moved s hole (next n hole) i)
    ordered-moved i li ne o =
        let c = next n hole in
        let from = came_from (next n i) (next_lt n i li) o in
        let behind : (i == hole) ≡ false = elim (Bool-cases (i == hole)) [
          | inr f ↦ f
          | inl e ↦
              let same : i ≡ hole = ground (arith, e) in
              absurd (ground (arith, from.remains, ap (next n) same))
        ] in
        let here = elsewhere i ne behind in
        elim (Bool-cases (next n i == hole)) [
          | inl meets ↦
              let same : next n i ≡ hole = ground (arith, meets) in
              near (moved s hole c (next n i)) (moved s hole c i) (nearer (s c)) (s i)
                (at_hole (next n i) same) here (omega (arith, k.before i li same, k.after occ))
          | inr away ↦
              let there = elsewhere (next n i) from.remains away in
              near (moved s hole c (next n i)) (moved s hole c i) (s (next n i)) (s i) there here
                (k.ordered i li behind (ap (λ b. b.occupied) (sym there) ∙ o))
        ]

    unique-moved :
        (i j : ℕ)
        → i < n
        → j < n
        → (moved s hole (next n hole) i).occupied ≡ true
        → (moved s hole (next n hole) j).occupied ≡ true
        → (moved s hole (next n hole) i).key ≡ (moved s hole (next n hole) j).key
        → i ≡ j
    unique-moved i j li lj oi oj e =
        let a = came_from i li oi in
        let b = came_from j lj oj in
        let one =
          k.unique (source i) (source j) a.inside b.inside a.stored b.stored
            (sym a.same_key ∙ e ∙ b.same_key) in
        ground (arith, one, a.remains, b.remains)

    -- The hole has moved on.
    pub IsHole-moved :
        IsHole n at_home (moved s hole (next n hole)) (next n hole) (s (next n hole)).probe_distance
    IsHole-moved =
        let c = next n hole in
        record {
          free = ap (λ b. b.occupied) (at_curr c refl);
          distance = distance-moved;
          ordered = ordered-moved;
          unique = unique-moved;
          before = λ p lp meets.
              let same : p ≡ hole = next_injective n p hole lp lh meets in
              let full : reach (moved s hole c p) ≡ reach (nearer (s c)) =
                ap reach (at_hole p same) in
              let size : reach (nearer (s c)) ≡ (s c).probe_distance = ground (arith, occ, far) in
              omega (arith, full, size);
          after = λ o.
              let d = next n c in
              let lc = next_lt n hole lh in
              let from = came_from d (next_lt n c lc) o in
              elim (Bool-cases (d == hole)) [
                | inl meets ↦
                    let same : d ≡ hole = ground (arith, meets) in
                    omega (arith, ap (λ b. b.probe_distance) (at_hole d same))
                | inr away ↦
                    let there = elsewhere d from.remains away in
                    let back : (c == hole) ≡ false = ground (arith, apart) in
                    let old = k.ordered c lc back (ap (λ b. b.occupied) (sym there) ∙ o) in
                    let size : reach (s c) ≡ (s c).probe_distance + 1 = ground (arith, occ) in
                    omega (arith, old, size, ap (λ b. b.probe_distance) there)
              ];
        }

    pub moved-Has :
        (key : KvBlockKey) (value : IndexSlotValue)
        → Has n (moved s hole (next n hole)) key value
        → Has n s key value
    moved-Has key value (i, li, m) =
        let from = came_from i li m.stored in
        (
          source i,
          from.inside,
          record {
            stored = from.stored;
            same_key = sym from.same_key ∙ m.same_key;
            same_value = sym from.same_value ∙ m.same_value;
          },
        )

    pub Has-moved :
        (key : KvBlockKey) (value : IndexSlotValue)
        → Has n s key value
        → Has n (moved s hole (next n hole)) key value
    Has-moved key value (i, li, m) =
        let full : (i == hole) ≡ false = elim (Bool-cases (i == hole)) [
          | inr f ↦ f
          | inl e ↦
              let same : i ≡ hole = ground (arith, e) in
              absurd (ground (arith, m.stored, k.free, ap (λ y. (s y).occupied) same))
        ] in
        elim (Bool-cases (i == next n hole)) [
          | inr away ↦ (i, li, subst (λ b. Matches b key value) (sym (elsewhere i away full)) m)
          | inl here ↦
              let same : i ≡ next n hole = ground (arith, here) in
              let there = subst (λ y. Matches (s y) key value) same m in
              let near_by : Matches (nearer (s (next n hole))) key value = record {
                stored = there.stored;
                same_key = there.same_key;
                same_value = there.same_value;
              } in
              (hole, lh, subst (λ b. Matches b key value) (sym (at_hole hole refl)) near_by)
        ]

    pub occ_count-moved : occ_count n (moved s hole (next n hole)) ≡ occ_count n s
    occ_count-moved =
        let c = next n hole in
        let b = nearer (s c) in
        let kept = ap (λ y. y.occupied) (put_there s hole b c (ground (arith, apart))) in
        ground (
          arith,
          occ_count-put n s hole b lh,
          occ_count-put n (put s hole b) c empty (next_lt n hole lh),
          kept,
          occ,
          k.free,
        )
