-- ===== src/Radix/Inserts.antt =====
-- The tree of src/index/src/radix_tree.rs against a map from addresses to values.
use virthub.Common.{
  ℕ, ◌+◌, ◌^◌, ◌<◌, ◌≡◌, refl, ap, Bool, ◌||◌, Option, none, some, List, [], ◌∷◌, if◌then◌else◌,
  ◌==◌, All, arith,
}
use virthub.Common.Result.{ok}
use virthub.Radix.{ConcurrentRadixTree, RadixLeafValue, insert, lookup}
use virthub.Radix.Paths.{same_path-four}
use virthub.Radix.Reads.{IsTree, is_ok, insert_from-Writes}

-- A sequence of insertions.
unfoldable pub insert_all : ConcurrentRadixTree → List (ℕ × RadixLeafValue) → ConcurrentRadixTree
insert_all t [] = t
insert_all t ((a, v) ∷ xs) = insert_all (insert t a v).0 xs

-- The value that was inserted last at an address.
abbrev pub latest : List (ℕ × RadixLeafValue) → ℕ → Option RadixLeafValue
latest [] b = none
latest ((a, v) ∷ xs) b = elim (latest xs b) [
  | some w ↦ some w
  | none ↦ if a == b then some v else none
]

-- The number of different addresses of a sequence, those seen before left out.
abbrev pub count_new : (ℕ → Bool) → List (ℕ × RadixLeafValue) → ℕ
count_new seen [] = 0
count_new seen ((a, v) ∷ xs) = (if seen a then 0 else 1) + count_new (λ b. a == b || seen b) xs

count_new_congr :
    (s r : ℕ → Bool) (xs : List (ℕ × RadixLeafValue))
    → ((b : ℕ) → b < 2 ^ 64 → s b ≡ r b)
    → All (λ x. x.0 < 2 ^ 64) xs
    → count_new s xs ≡ count_new r xs
count_new_congr s r [] h small = refl
count_new_congr s r ((a, v) ∷ xs) h small =
    let rest =
      count_new_congr (λ b. a == b || s b) (λ b. a == b || r b) xs
        (λ b lt. ap (λ c. a == b || c) (h b lt)) small.1 in
    ground (arith, h a small.0, rest)

-- One insertion.
insert_lem :
    (t : ConcurrentRadixTree) (a : ℕ) (v : RadixLeafValue)
    → a < 2 ^ 64
    → IsTree 4 t.root
    → let (t', result) = insert t a v in
      (result ≡ ok tt)
      × IsTree 4 t'.root
      × ((b : ℕ) → b < 2 ^ 64 → lookup t' b ≡ (if a == b then ok v else lookup t b))
      × (t'.entry_count ≡ t.entry_count + (if is_ok (lookup t a) then 0 else 1))
unfolding insert lookup
insert_lem t a v small h =
    let w = insert_from-Writes 3 a v t.root h in
    (
      w.succeeds,
      w.tree,
      λ b lt. ground (arith, w.reads b, same_path-four a b small lt),
      ap (λ n. t.entry_count + n) w.counts,
    )

insert_all_lem :
    (t : ConcurrentRadixTree) (xs : List (ℕ × RadixLeafValue))
    → IsTree 4 t.root
    → All (λ x. x.0 < 2 ^ 64) xs
    → let t' = insert_all t xs in
      ((b : ℕ)
        → b < 2 ^ 64
        → lookup t' b ≡ elim (latest xs b) [ some v ↦ ok v | none ↦ lookup t b ])
      × (t'.entry_count ≡ t.entry_count + count_new (λ b. is_ok (lookup t b)) xs)
unfolding insert_all
insert_all_lem t [] h small = ((λ b lt. refl), omega arith)
insert_all_lem t ((a, v) ∷ xs) h small =
    let t' = (insert t a v).0 in
    let one = insert_lem t a v small.0 h in
    let rest = insert_all_lem t' xs one.1 small.1 in
    let seen =
      count_new_congr (λ b. is_ok (lookup t' b)) (λ b. a == b || is_ok (lookup t b)) xs
        (λ b lt. ground (arith, one.2 b lt)) small.1 in
    ((λ b lt. ground (arith, rest.0 b lt, one.2 b lt)), ground (arith, rest.1, one.3, seen))

-- After any sequence of insertions at 64-bit addresses, a lookup returns the value that was inserted last at
-- that very address, or else what the tree returned before, and the entry count has grown by the number of
-- different addresses that were new.
pub insert_all_refines :
    (t : ConcurrentRadixTree) (xs : List (ℕ × RadixLeafValue)) (b : ℕ)
    → IsTree 4 t.root
    → All (λ x. x.0 < 2 ^ 64) xs
    → b < 2 ^ 64
    → (lookup (insert_all t xs) b ≡ elim (latest xs b) [ some v ↦ ok v | none ↦ lookup t b ])
      × ((insert_all t xs).entry_count ≡ t.entry_count + count_new (λ c. is_ok (lookup t c)) xs)
insert_all_refines t xs b h small lt = let all = insert_all_lem t xs h small in (all.0 b lt, all.1)
