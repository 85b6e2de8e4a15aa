-- ===== src/HashIndex/News.antt =====
-- A new index of src/index/src/hash_index.rs.
use virthub.Common.{
  ℕ, zero, suc, ◌+◌, ◌*◌, ◌^◌, ◌≤◌, ◌<◌, ◌≡◌, refl, sym, ap, ◌∙◌, false, none, some, List, leb,
  ◌==◌, max, length, arith, Bool-cases, inl, inr,
}
use native.Mathlib.Nat.{two-pow-succ, pow-le-pow_right}
use virthub.Common.Result.{ok, err}
use virthub.Eviction.{KvBlockKey}
use virthub.HashIndex.{
  ConcurrentHashIndex, IndexSlotValue, empty, key_not_found, new, power_from, get, get_from, home,
}
use virthub.HashIndex.Tables.{occ_count}
use virthub.HashIndex.Maps.{IsIndex}
use virthub.HashIndex.Refines.{insert_all, latest, insert_all_refines_map}

pow_step : (j : ℕ) → 2 * 2 ^ j ≡ 2 ^ suc j
pow_step j = omega (arith, two-pow-succ j)

power_from_lem :
    (fuel j n : ℕ)
    → j ≤ 15
    → n ≤ 2 ^ 15
    → 15 < fuel + j
    → (k : ℕ) × (power_from fuel (2 ^ j) n ≡ 2 ^ k) × (k ≤ 15)
unfolding power_from
power_from_lem zero j n lj ln enough = absurd (omega (arith, lj, enough))
power_from_lem (suc fuel) j n lj ln enough = elim (Bool-cases (leb n (2 ^ j))) [
  | inl fits ↦ (j, ground (arith, fits), lj)
  | inr more ↦
      let below : (j == 15) ≡ false = elim (Bool-cases (j == 15)) [
        | inr other ↦ other
        | inl last ↦
            absurd (
              ground
                (arith, more, ln, ap (λ x. 2 ^ x) (let p : j ≡ 15 = ground (arith, last) in p)))
      ] in
      let (k, e, lk) =
        power_from_lem fuel (suc j) n (ground (arith, lj, below)) ln (omega (arith, enough)) in
      (k, ground (arith, more, ap (λ p. power_from fuel p n) (pow_step j), e), lk)
]

-- A power of two up to 2^15, at least 16, is a power of two from 2 to 32768.
sixteen :
    (k : ℕ)
    → k ≤ 15
    → (m : ℕ) × (max (2 ^ k) 16 ≡ 2 ^ m) × (1 < max (2 ^ k) 16) × (2 * max (2 ^ k) 16 ≤ 2 ^ 16)
sixteen k lk = elim (Bool-cases (leb k 4)) [
  | inl few ↦
      let little : k ≤ 4 = ground (arith, few) in
      let below : 2 ^ k ≤ 2 ^ 4 = pow-le-pow_right {n = 2} (omega arith) little in
      (4, omega (arith, below), omega (arith, below), omega (arith, below))
  | inr many ↦
      let much : 4 ≤ k = ground (arith, many) in
      let above : 2 ^ 4 ≤ 2 ^ k = pow-le-pow_right {n = 2} (omega arith) much in
      let top : 2 ^ k ≤ 2 ^ 15 = pow-le-pow_right {n = 2} (omega arith) lk in
      (k, omega (arith, above), omega (arith, above), omega (arith, above, top))
]

occ_count-empty : (n : ℕ) → occ_count n (λ i. empty) ≡ 0
occ_count-empty zero = refl
occ_count-empty (suc n) = omega (arith, occ_count-empty n)

new-IsIndex : (capacity : ℕ) → capacity ≤ 2 ^ 15 → IsIndex (new capacity)
unfolding new
new-IsIndex capacity le =
    let (k, e, lk) = power_from_lem 64 0 capacity (omega arith) le (omega arith) in
    let (m, power, two, small) = sixteen k lk in
    let cap = ap (λ p. max p 16) e in
    record {
      exponent = m;
      power = cap ∙ power;
      two = omega (arith, cap, two);
      small = omega (arith, cap, small);
      masked = refl;
      table = record {
        distance = λ i li o. ground arith;
        ordered = λ i li o. ground arith;
        unique = λ i j li lj oi oj same. absurd (ground arith);
      };
      counted = sym (occ_count-empty (new capacity).capacity);
    }

get_from_new :
    (n mask : ℕ) (key : KvBlockKey) (x : ℕ)
    → get_from n mask (suc n) (λ i. empty) key x 0 ≡ some (err (key_not_found key))
unfolding get_from
get_from_new n mask key x = refl

-- A new index of a capacity up to 32768, which is rounded up to a power of two and to 16 at least, takes any
-- sequence of insertions that is no longer than three quarters of that capacity: every one ends and succeeds, and a
-- lookup ends and returns what was inserted last for its key, or that the key is not there.
pub get-insert_all :
    (capacity : ℕ) (xs : List (KvBlockKey × IndexSlotValue)) (j : KvBlockKey)
    → capacity ≤ 2 ^ 15
    → 4 * length xs ≤ 3 * (new capacity).capacity
    → (c : ConcurrentHashIndex) × (insert_all (new capacity) xs ≡ some c)
      × IsIndex c
      × (get c j
          ≡ elim (latest xs j) [ some v ↦ some (ok v) | none ↦ some (err (key_not_found j)) ])
unfolding new get
get-insert_all capacity xs j le room =
    let c0 = new capacity in
    let (c, run, sound, gets) =
      insert_all_refines_map c0 xs j (new-IsIndex capacity le) (omega (arith, room)) in
    let missing = get_from_new c0.capacity c0.mask j (home c0.mask j) in
    (c, run, sound, ground (arith, gets, missing))
