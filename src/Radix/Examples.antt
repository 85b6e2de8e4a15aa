-- ===== src/Radix/Examples.antt =====
-- The tree of src/index/src/radix_tree.rs with three insertions at two addresses.
use virthub.Common.{ℕ, ◌+◌, ◌≡◌, refl, List, [], ◌∷◌, some, none, arith}
use virthub.Common.Result.{ok}
use virthub.Radix.{
  RadixLeafValue, new, insert, insert_from, lookup, lookup_from, lookup_range, get_child,
  insert_child, extract_chunk,
}
use virthub.Radix.Reads.{IsTree, is_ok}
use virthub.Radix.Inserts.{insert_all, latest, count_new, insert_all_refines}
use virthub.Radix.Range.{Reports, lookup_range-Reports}

abbrev value : ℕ → RadixLeafValue
value n = record {
  block_key = record { namespace_id = 1; block_id = n };
  frame_offset = 4096;
  flags = 0;
}

abbrev calls : List (ℕ × RadixLeafValue)
calls = (0x1000, value 1) ∷ (0x2000, value 2) ∷ (0x1000, value 3) ∷ []

new-IsTree : IsTree 4 new.root
unfolding new
new-IsTree = tt

insert_all_refines_example :
    (lookup (insert_all new calls) 0x1000
      ≡ elim (latest calls 0x1000) [ some v ↦ ok v | none ↦ lookup new 0x1000 ])
    × ((insert_all new calls).entry_count
        ≡ new.entry_count + count_new (λ c. is_ok (lookup new c)) calls)
insert_all_refines_example =
    insert_all_refines new calls 0x1000 new-IsTree (omega arith, (omega arith, (omega arith, tt)))
      (omega arith)

lookup_range-Reports_example :
    (xs : List (ℕ × RadixLeafValue)) × (lookup_range (insert_all new calls) 4 0 0x4000 4096
      ≡ some xs)
    × Reports (insert_all new calls) 0 0x4000 4096 xs
lookup_range-Reports_example =
    lookup_range-Reports (insert_all new calls) 4 0 0x4000 4096 (omega arith) (omega arith)
      (omega arith)

found : lookup (insert_all new calls) 0x1000 ≡ ok (value 3)
unfolding insert_all insert insert_from lookup lookup_from get_child insert_child extract_chunk new
found = refl
