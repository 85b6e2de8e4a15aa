-- ===== src/Radix.antt =====
-- src/index/src/radix_tree.rs: the radix tree over 64-bit addresses. A method holds the lock of the
-- root, so it is one step.
pub mod Paths
pub mod Reads
pub mod Inserts
pub mod Range
mod Examples
use virthub.Common.{
  ℕ, zero, suc, ◌+◌, ◌-◌, ◌*◌, ◌/◌, ◌^◌, Bool, true, false, Option, none, some, List, [], ◌∷◌,
  if◌then◌else◌, ltb, ◌==◌, bit_and,
}
use virthub.Common.Word.{add64}
use virthub.Common.Result.{Result, ok, err}
use virthub.Eviction.{KvBlockKey}

abbrev pub radix_bits_per_level : ℕ
radix_bits_per_level = 16

pub data RadixTreeError : Type 0 where
  address_unmapped : ℕ → RadixTreeError
  allocation_failed : RadixTreeError
  invalid_range : (start end : ℕ) → RadixTreeError

pub record RadixLeafValue : Type 0 where
  pub block_key : KvBlockKey
  pub frame_offset : ℕ
  pub flags : ℕ

-- The hash map of a branch is the list of its entries.
mutual
  pub data Node : Type 0 where
    branch : Children → Node
    leaf : RadixLeafValue → Node

  pub data Children : Type 0 where
    end : Children
    child : ℕ → Node → Children → Children

abbrev pub new_branch : Node
new_branch = branch end

unfoldable pub get_child : Children → ℕ → Option Node
get_child end k = none
get_child (child j n cs) k = if j == k then some n else get_child cs k

unfoldable pub insert_child : Children → ℕ → Node → Children
insert_child end k m = child k m end
insert_child (child j n cs) k m = if j == k then child k m cs else child j n (insert_child cs k m)

pub record ConcurrentRadixTree : Type 0 where
  pub root : Node
  pub entry_count : ℕ

unfoldable pub new : ConcurrentRadixTree
new = record { root = new_branch; entry_count = 0 }

unfoldable pub extract_chunk : ℕ → ℕ → ℕ
extract_chunk vaddr level = bit_and (vaddr / 2 ^ ((3 - level) * radix_bits_per_level)) 0xFFFF

-- What the loop of `insert` does from a node on, with `left` of the four levels to go: the new node, the
-- number of entries added, and the result.
pub record Inserted : Type 0 where
  pub node : Node
  pub added : ℕ
  pub result : Result RadixTreeError (Unit {0})

unfoldable pub insert_from : (left : ℕ) → ℕ → RadixLeafValue → Node → Inserted
unfolding get_child insert_child extract_chunk
insert_from zero vaddr value node = record { node = node; added = 0; result = ok tt }
insert_from (suc left) vaddr value (leaf v) = record {
  node = leaf v;
  added = 0;
  result = err (address_unmapped vaddr);
}
insert_from (suc zero) vaddr value (branch children) =
    let chunk = extract_chunk vaddr 3 in
    record {
      node = branch (insert_child children chunk (leaf value));
      added = elim (get_child children chunk) [ none ↦ 1 | some _ ↦ 0 ];
      result = ok tt;
    }
insert_from (suc (suc left)) vaddr value (branch children) =
    let chunk = extract_chunk vaddr (4 - suc (suc left)) in
    let below : Node = elim (get_child children chunk) [ none ↦ new_branch | some n ↦ n ] in
    let done = insert_from (suc left) vaddr value below in
    record done { node = branch (insert_child children chunk done.node) }

unfoldable pub insert :
    ConcurrentRadixTree
    → ℕ
    → RadixLeafValue
    → ConcurrentRadixTree × Result RadixTreeError (Unit {0})
unfolding insert_from
insert t vaddr value =
    let done = insert_from 4 vaddr value t.root in
    (record { root = done.node; entry_count = t.entry_count + done.added }, done.result)

-- The loop of `lookup` from a node on.
unfoldable pub lookup_from : (left : ℕ) → ℕ → Node → Result RadixTreeError RadixLeafValue
unfolding get_child extract_chunk
lookup_from zero vaddr (leaf v) = ok v
lookup_from zero vaddr (branch children) = err (address_unmapped vaddr)
lookup_from (suc left) vaddr (leaf v) = err (address_unmapped vaddr)
lookup_from (suc left) vaddr (branch children) =
    elim (get_child children (extract_chunk vaddr (4 - suc left))) [
      | none ↦ err (address_unmapped vaddr)
      | some n ↦ lookup_from left vaddr n
    ]

unfoldable pub lookup : ConcurrentRadixTree → ℕ → Result RadixTreeError RadixLeafValue
unfolding lookup_from
lookup t vaddr = lookup_from 4 vaddr t.root

-- The loop of `lookup_range`, whose address is a u64 and wraps; `none` if the fuel runs out.
unfoldable pub lookup_range :
    ConcurrentRadixTree → (fuel curr end_vaddr step : ℕ) → Option (List (ℕ × RadixLeafValue))
unfolding lookup
lookup_range t zero curr end_vaddr step = if ltb curr end_vaddr then none else some []
lookup_range t (suc fuel) curr end_vaddr step =
    let rest = lookup_range t fuel (add64 curr step) end_vaddr step in
    if ltb curr end_vaddr
    then elim rest [
      | none ↦ none
      | some xs ↦ some (elim (lookup t curr) [ err _ ↦ xs | ok v ↦ (curr, v) ∷ xs ])
    ]
    else some []
