-- ===== src/Diff/Examples.antt =====
-- The patches of src/klnk/klnk-core/src/diff.rs on two small pages.
use virthub.Common.{◌≡◌, refl, [], ◌∷◌, arith}
use virthub.Common.Result.{ok}
use virthub.Diff.{
  Pages, PageDiffList, compute_diff, apply_patch, same_byte, word_differs, load, trimmed_chunk,
  trim_start, merge_words, trim_end,
}
use virthub.Diff.Coverage.{IsPair}
use virthub.Diff.RoundTrip.{apply_patch-compute_diff}

abbrev pages : Pages
pages = record {
  dirty = 1 ∷ 2 ∷ 7 ∷ 4 ∷ 5 ∷ 6 ∷ 7 ∷ 8 ∷ 9 ∷ 3 ∷ [];
  base = 1 ∷ 2 ∷ 3 ∷ 4 ∷ 5 ∷ 6 ∷ 7 ∷ 8 ∷ 9 ∷ 10 ∷ [];
}

abbrev diff : PageDiffList
diff = record {
  page_vaddr = 4096;
  page_size = 10;
  chunks = record { offset = 2; bytes = 7 ∷ [] } ∷ record { offset = 9; bytes = 3 ∷ [] } ∷ [];
}

pages-IsPair : IsPair pages
pages-IsPair = record {
  same_size = refl;
  small = omega arith;
  dirty_bytes = ground arith;
  base_bytes = ground arith;
}

diff_lem : compute_diff 4096 pages.dirty pages.base ≡ ok diff
unfolding compute_diff word_differs load trimmed_chunk trim_start merge_words same_byte trim_end
diff_lem = refl

apply_patch-compute_diff_example :
    (d : PageDiffList) × (compute_diff 4096 pages.dirty pages.base ≡ ok d)
    × (apply_patch pages.base d ≡ (pages.dirty, ok tt))
apply_patch-compute_diff_example = apply_patch-compute_diff 4096 pages pages-IsPair
