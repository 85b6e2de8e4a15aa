-- ===== src/Diff.antt =====
-- src/klnk/klnk-core/src/diff.rs: the page diff engine. A page is the list of its bytes.
pub mod Patch
pub mod Coverage
pub mod Chunks
pub mod RoundTrip
mod Examples
use virthub.Common.{
  ℕ, zero, suc, ◌+◌, ◌-◌, ◌*◌, ◌/◌, ◌%◌, Bool, true, false, ◌&&◌, not, List, [], ◌∷◌, ◌++◌,
  if◌then◌else◌, ltb, ◌==◌, length, get_or, take, drop,
}
use virthub.Common.Word.{u32_mod}
use virthub.Common.Result.{Result, ok, err}

pub data DiffError : Type 0 where
  size_mismatch : (dirty_len base_len : ℕ) → DiffError
  out_of_bounds_patch : (offset len page_len : ℕ) → DiffError
  unaligned_buffer : ℕ → DiffError

pub record PageDiffChunk : Type 0 where
  pub offset : ℕ  -- u32
  pub bytes : List ℕ

pub record PageDiffList : Type 0 where
  pub page_vaddr : ℕ
  pub page_size : ℕ
  pub chunks : List PageDiffChunk

-- A byte of a page; every index that is read below is less than the page's size.
abbrev pub byte_at : List ℕ → ℕ → ℕ
byte_at page i = get_or page i 0

-- `page[start..start + len].to_vec()`
abbrev pub slice : List ℕ → ℕ → ℕ → List ℕ
slice page start len = take len (drop start page)

pub record Pages : Type 0 where
  pub dirty : List ℕ
  pub base : List ℕ

-- `n` bytes from `start`, as the little-endian number that a load gives.
unfoldable pub load : ℕ → List ℕ → ℕ → ℕ
load zero page start = 0
load (suc n) page start = byte_at page start + 256 * load n page (start + 1)

-- `dirty_words[w] != base_words[w]`
unfoldable pub word_differs : Pages → ℕ → Bool
word_differs p w = not (load 8 p.dirty (w * 8) == load 8 p.base (w * 8))

unfoldable pub same_byte : Pages → ℕ → Bool
same_byte p i = byte_at p.dirty i == byte_at p.base i

-- The look-ahead loop: the first of the `n` words from `w` that does not differ.
unfoldable pub merge_words : Pages → ℕ → ℕ → ℕ
merge_words p zero w = w
merge_words p (suc n) w = let rest = merge_words p n (w + 1) in if word_differs p w then rest else w

-- Skips equal bytes from `start`, at most `n` of them.
unfoldable pub trim_start : Pages → ℕ → ℕ → ℕ
trim_start p zero start = start
trim_start p (suc n) start =
    let rest = trim_start p n (start + 1) in if same_byte p start then rest else start

-- Skips equal bytes down from `end`, at most `n` of them.
unfoldable pub trim_end : Pages → ℕ → ℕ → ℕ
trim_end p zero end = end
trim_end p (suc n) end =
    let rest = trim_end p n (end - 1) in if same_byte p (end - 1) then rest else end

-- The chunk of the differing words from byte `start` to byte `end`, trimmed on both sides.
unfoldable pub trimmed_chunk : Pages → ℕ → ℕ → List PageDiffChunk
trimmed_chunk p start end =
    let real_start = trim_start p (end - start) start in
    let real_end = trim_end p (end - real_start) end in
    if ltb real_start real_end
    then record {
      offset = real_start % u32_mod;
      bytes = slice p.dirty real_start (real_end - real_start);
    }
      ∷ []
    else []

-- The loop over the words: each round moves `word_idx` on, so `word_count` rounds are enough.
unfoldable pub scan_words : Pages → ℕ → ℕ → ℕ → List PageDiffChunk
scan_words p word_count zero word_idx = []
scan_words p word_count (suc fuel) word_idx =
    let next = merge_words p (word_count - (word_idx + 1)) (word_idx + 1) in
    let after_chunk =
      trimmed_chunk p (word_idx * 8) (next * 8) ++ scan_words p word_count fuel next in
    let after_word = scan_words p word_count fuel (word_idx + 1) in
    if ltb word_idx word_count
    then (if word_differs p word_idx then after_chunk else after_word)
    else []

-- The loop over the `n` bytes of the tail, from `i`.
unfoldable pub scan_tail : Pages → ℕ → ℕ → List PageDiffChunk
scan_tail p zero i = []
scan_tail p (suc n) i =
    let rest = scan_tail p n (i + 1) in
    if same_byte p i
    then rest
    else record { offset = i % u32_mod; bytes = byte_at p.dirty i ∷ [] } ∷ rest

unfoldable pub diff_chunks : Pages → List PageDiffChunk
unfolding scan_words scan_tail
diff_chunks p =
    let page_size = length p.dirty in
    let word_count = page_size / 8 in
    scan_words p word_count word_count 0
    ++ scan_tail p (page_size - word_count * 8) (word_count * 8)

unfoldable pub compute_diff : ℕ → List ℕ → List ℕ → Result DiffError PageDiffList
unfolding diff_chunks
compute_diff page_vaddr dirty_page baseline_page =
    if length dirty_page == length baseline_page
    then ok (record {
      page_vaddr = page_vaddr;
      page_size = length dirty_page;
      chunks = diff_chunks (record { dirty = dirty_page; base = baseline_page });
    })
    else err (size_mismatch (length dirty_page) (length baseline_page))

-- `page[start..start + bytes.len()].copy_from_slice(bytes)`, in bounds.
unfoldable pub copy_at : List ℕ → ℕ → List ℕ → List ℕ
copy_at [] start bytes = []
copy_at (x ∷ page) zero [] = x ∷ page
copy_at (x ∷ page) zero (b ∷ bytes) = b ∷ copy_at page zero bytes
copy_at (x ∷ page) (suc start) bytes = x ∷ copy_at page start bytes

-- `apply_patch` writes in place: the page comes back beside the result, also on an error.
unfoldable pub apply_chunks : List ℕ → List PageDiffChunk → List ℕ × Result DiffError (Unit {0})
unfolding copy_at
apply_chunks page [] = (page, ok tt)
apply_chunks page (c ∷ cs) =
    let end = c.offset + length c.bytes in
    let rest = apply_chunks (copy_at page c.offset c.bytes) cs in
    if ltb (length page) end
    then (page, err (out_of_bounds_patch c.offset (length c.bytes) (length page)))
    else rest

unfoldable pub apply_patch : List ℕ → PageDiffList → List ℕ × Result DiffError (Unit {0})
unfolding apply_chunks
apply_patch target_page diff = apply_chunks target_page diff.chunks

unfoldable pub total_modified_bytes : List PageDiffChunk → ℕ
total_modified_bytes [] = 0
total_modified_bytes (c ∷ cs) = length c.bytes + total_modified_bytes cs
