-- ===== src/Diff/Chunks.antt =====
-- The chunks of `compute_diff` hold the dirty page's bytes, account for every byte, and are tight.
use virthub.Common.{
  ℕ, zero, suc, ◌+◌, ◌-◌, ◌*◌, ◌/◌, ◌%◌, ◌≤◌, ◌<◌, ◌≡◌, inl, inr, ◌∙◌, sym, false, List, [], ◌∷◌,
  ◌++◌, length, All, All-append, arith, ltb, Bool-cases, min, length-take, length-drop, get_or-take,
  get_or-drop, drop,
}
use virthub.Common.Word.{u32_mod}
use virthub.Diff.{
  PageDiffChunk, Pages, byte_at, slice, word_differs, same_byte, merge_words, trim_start, trim_end,
  trimmed_chunk, scan_words, scan_tail, diff_chunks,
}
use virthub.Diff.Patch.{Covers, IsFrom}
use virthub.Diff.Coverage.{
  IsPair, Accounts, same_byte-eq, merge_words_bounds, trim_start_bounds, trim_start_skips,
  trim_end_bounds, trim_end_skips, trim_start_stops, trim_end_stops, load_injective,
}

length-slice : (page : List ℕ) (s n : ℕ) → length (slice page s n) ≡ min n (length page - s)
length-slice page s n = rw (length-take n (drop s page), length-drop s page)

byte_at-slice :
    (page : List ℕ) (s n k : ℕ) → k < n → byte_at (slice page s n) k ≡ byte_at page (s + k)
byte_at-slice page s n k h = get_or-take n (drop s page) k 0 h ∙ get_or-drop s page k 0

pub Covers-append_left : (i : ℕ) (cs ds : List PageDiffChunk) → Covers i cs → Covers i (cs ++ ds)
Covers-append_left i [] ds m = absurd m
Covers-append_left i (c ∷ cs) ds (inl h) = inl h
Covers-append_left i (c ∷ cs) ds (inr m) = inr (Covers-append_left i cs ds m)

pub Covers-append_right : (i : ℕ) (cs ds : List PageDiffChunk) → Covers i ds → Covers i (cs ++ ds)
Covers-append_right i [] ds m = m
Covers-append_right i (c ∷ cs) ds m = inr (Covers-append_right i cs ds m)

-- A chunk of the diff: it comes from the dirty page, is not empty, and its first and last byte
-- differ from the baseline.
pub record IsTight (p : Pages) (c : PageDiffChunk) : Type 0 where
  pub from_dirty : IsFrom p.dirty (length p.dirty) c
  pub nonempty : 0 < length c.bytes
  pub first_differs : same_byte p c.offset ≡ false
  pub last_differs : same_byte p (c.offset + length c.bytes - 1) ≡ false

module _ (p : Pages) where
  Accounts-join :
      (lo mid hi : ℕ) (cs ds : List PageDiffChunk)
      → Accounts p lo mid cs
      → Accounts p mid hi ds
      → Accounts p lo hi (cs ++ ds)
  Accounts-join lo mid hi cs ds a b i low high = elim (Bool-cases (ltb i mid)) [
    | inl below ↦ elim (a i low (ground arith)) [
      | inl same ↦ inl same
      | inr m ↦ inr (Covers-append_left i cs ds m)
    ]
    | inr above ↦ elim (b i (ground arith) high) [
      | inl same ↦ inl same
      | inr m ↦ inr (Covers-append_right i cs ds m)
    ]
  ]

  module _ (v : IsPair p) where
    chunk-IsTight :
        (s e : ℕ)
        → s < e
        → e ≤ length p.dirty
        → same_byte p s ≡ false
        → same_byte p (e - 1) ≡ false
        → IsTight p (record { offset = s % u32_mod; bytes = slice p.dirty s (e - s) })
    chunk-IsTight s e lt fits first last = record {
      from_dirty = record {
        inside = ground (arith, length-slice p.dirty s (e - s), v.small);
        holds = λ k h.
            ground
              (arith, byte_at-slice p.dirty s (e - s) k, length-slice p.dirty s (e - s), v.small);
      };
      nonempty = ground (arith, length-slice p.dirty s (e - s));
      first_differs = rw (offset_lem) first;
      last_differs = rw (last_offset) last;
    }
      where
        offset_lem : s % u32_mod ≡ s
        offset_lem = omega (arith, v.small)

        last_offset : s % u32_mod + length (slice p.dirty s (e - s)) - 1 ≡ e - 1
        last_offset = ground (arith, length-slice p.dirty s (e - s), v.small)

    trimmed-IsTight : (s e : ℕ) → s ≤ e → e ≤ length p.dirty → All (IsTight p) (trimmed_chunk p s e)
    unfolding trimmed_chunk
    trimmed-IsTight s e le fits =
        let rs = trim_start p (e - s) s in
        let re = trim_end p (e - rs) e in
        elim (Bool-cases (ltb rs re)) [
          | inl more ↦ rw more (
            chunk-IsTight rs re (ground arith) (ground (arith, trim_end_bounds p (e - rs) e))
                (trim_start_stops p (e - s) s
                  (ground (arith, trim_end_bounds p (e - rs) e, trim_start_bounds p (e - s) s)))
                (trim_end_stops p (e - rs) e (omega arith)
                  (ground (arith, trim_start_bounds p (e - s) s))),
            tt,
          )
          | inr empty ↦ rw empty tt
        ]

    trimmed-Accounts : (s e : ℕ) → s ≤ e → e ≤ length p.dirty → Accounts p s e (trimmed_chunk p s e)
    unfolding trimmed_chunk
    trimmed-Accounts s e le fits i lo hi =
        let rs = trim_start p (e - s) s in
        let re = trim_end p (e - rs) e in
        ground (
          arith,
          v.small,
          trim_start_bounds p (e - s) s,
          trim_end_bounds p (e - rs) e,
          trim_start_skips p (e - s) s i,
          trim_end_skips p (e - rs) e i,
          length-slice p.dirty rs (re - rs),
        )

    word-Accounts : (w : ℕ) → word_differs p w ≡ false → Accounts p (w * 8) ((w + 1) * 8) []
    unfolding word_differs
    word-Accounts w h i lo hi = inl (
        sym (
          load_injective 8 p.dirty p.base (w * 8) i v.dirty_bytes v.base_bytes (ground arith) lo
            (omega arith)))

    module _ (wc : ℕ) (fits : wc * 8 ≤ length p.dirty) where
      scan_words-IsTight : (fuel w : ℕ) → All (IsTight p) (scan_words p wc fuel w)
      unfolding scan_words
      scan_words-IsTight zero w = tt
      scan_words-IsTight (suc fuel) w =
          let next = merge_words p (wc - (w + 1)) (w + 1) in
          elim (Bool-cases (ltb w wc)) [
            | inr done ↦ rw done tt
            | inl more ↦ rw more (elim (Bool-cases (word_differs p w)) [
              | inl d ↦ rw d (
                  All-append (IsTight p) (trimmed_chunk p (w * 8) (next * 8))
                    (scan_words p wc fuel next)
                    (trimmed-IsTight (w * 8) (next * 8)
                      (omega (arith, merge_words_bounds p (wc - (w + 1)) (w + 1)))
                      (ground (arith, merge_words_bounds p (wc - (w + 1)) (w + 1))))
                    (scan_words-IsTight fuel next))
              | inr d ↦ rw d (scan_words-IsTight fuel (w + 1))
            ])
          ]

      scan_words-Accounts :
          (fuel w : ℕ) → wc ≤ w + fuel → Accounts p (w * 8) (wc * 8) (scan_words p wc fuel w)
      unfolding scan_words
      scan_words-Accounts zero w enough = λ i lo hi. absurd (omega arith)
      scan_words-Accounts (suc fuel) w enough =
          let next = merge_words p (wc - (w + 1)) (w + 1) in
          elim (Bool-cases (ltb w wc)) [
            | inr done ↦ λ i lo hi. absurd (ground arith)
            | inl more ↦ rw more (elim (Bool-cases (word_differs p w)) [
              | inl d ↦ rw d (
                  Accounts-join (w * 8) (next * 8) (wc * 8) (trimmed_chunk p (w * 8) (next * 8))
                    (scan_words p wc fuel next)
                    (trimmed-Accounts (w * 8) (next * 8)
                      (omega (arith, merge_words_bounds p (wc - (w + 1)) (w + 1)))
                      (ground (arith, merge_words_bounds p (wc - (w + 1)) (w + 1))))
                    (scan_words-Accounts fuel next
                      (omega (arith, merge_words_bounds p (wc - (w + 1)) (w + 1)))))
              | inr d ↦ rw d (
                  Accounts-join (w * 8) ((w + 1) * 8) (wc * 8) [] (scan_words p wc fuel (w + 1))
                    (word-Accounts w d) (scan_words-Accounts fuel (w + 1) (omega arith)))
            ])
          ]

    scan_tail-IsTight : (n i : ℕ) → i + n ≤ length p.dirty → All (IsTight p) (scan_tail p n i)
    unfolding scan_tail
    scan_tail-IsTight zero i h = tt
    scan_tail-IsTight (suc n) i h = elim (Bool-cases (same_byte p i)) [
      | inl same ↦ rw same (scan_tail-IsTight n (i + 1) (omega arith))
      | inr differs ↦ rw differs (one differs, scan_tail-IsTight n (i + 1) (omega arith))
    ]
      where
        offset_lem : i % u32_mod ≡ i
        offset_lem = omega (arith, v.small)

        one :
            same_byte p i ≡ false
            → IsTight p (record { offset = i % u32_mod; bytes = byte_at p.dirty i ∷ [] })
        one d = record {
          from_dirty = record {
            inside = omega (arith, v.small);
            holds = λ k lt. ground (arith, v.small);
          };
          nonempty = omega arith;
          first_differs = rw offset_lem d;
          last_differs = let e : i % u32_mod + 1 - 1 ≡ i = omega (arith, v.small) in rw e d;
        }

    scan_tail-Accounts : (n i : ℕ) → i + n ≤ length p.dirty → Accounts p i (i + n) (scan_tail p n i)
    unfolding scan_tail
    scan_tail-Accounts zero i h k lo hi = absurd (omega arith)
    scan_tail-Accounts (suc n) i h k lo hi =
        ground (arith, v.small, scan_tail-Accounts n (i + 1) (omega arith) k, same_byte-eq p i)

    pub diff_chunks-IsTight : All (IsTight p) (diff_chunks p)
    unfolding diff_chunks
    diff_chunks-IsTight =
        let wc = length p.dirty / 8 in
        All-append (IsTight p) (scan_words p wc wc 0)
          (scan_tail p (length p.dirty - wc * 8) (wc * 8))
          (scan_words-IsTight wc (omega arith) wc 0)
          (scan_tail-IsTight (length p.dirty - wc * 8) (wc * 8) (omega arith))

    pub diff_chunks-Accounts : Accounts p 0 (length p.dirty) (diff_chunks p)
    unfolding diff_chunks
    diff_chunks-Accounts =
        let wc = length p.dirty / 8 in
        Accounts-join 0 (wc * 8) (length p.dirty) (scan_words p wc wc 0)
          (scan_tail p (length p.dirty - wc * 8) (wc * 8))
          (scan_words-Accounts wc (omega arith) wc 0 (omega arith))
          (λ i lo hi.
            scan_tail-Accounts (length p.dirty - wc * 8) (wc * 8) (omega arith) i lo (omega arith))
