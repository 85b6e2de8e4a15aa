-- ===== src/Diff/RoundTrip.antt =====
-- `apply_patch` against `compute_diff`, for pages of bytes whose size fits the u32 chunk offsets.
use virthub.Common.{
  ℕ, ◌+◌, ◌≤◌, ◌<◌, ◌≡◌, ◌↔◌, ◌⊎◌, ◌∙◌, sym, inl, inr, refl, List, [], ◌∷◌, length, All, arith, ltb,
  eq_of_get_or, Bool-cases, leb, ◌&&◌, false, ap, subst,
}
use virthub.Common.Result.{ok}
use virthub.Diff.{
  PageDiffChunk, PageDiffList, Pages, byte_at, same_byte, compute_diff, diff_chunks, apply_chunks,
  apply_patch, copy_at,
}
use virthub.Diff.Patch.{
  Covers, IsFrom, apply_chunks_ok, byte_at-apply_chunks_in, byte_at-apply_chunks_out,
  length-copy_at,
}
use virthub.Diff.Coverage.{IsPair}
use virthub.Diff.Chunks.{IsTight, diff_chunks-IsTight, diff_chunks-Accounts}

-- The patch that `compute_diff` returns for a pair of pages.
abbrev pub diff_of : ℕ → Pages → PageDiffList
diff_of vaddr p = record { page_vaddr = vaddr; page_size = length p.dirty; chunks = diff_chunks p }

compute_diff_ok :
    (vaddr : ℕ) (p : Pages)
    → length p.dirty ≡ length p.base
    → compute_diff vaddr p.dirty p.base ≡ ok (diff_of vaddr p)
unfolding compute_diff
compute_diff_ok vaddr p e = ground arith

IsTight-IsFrom :
    (p : Pages) (cs : List PageDiffChunk)
    → All (IsTight p) cs
    → All (IsFrom p.dirty (length p.dirty)) cs
IsTight-IsFrom p [] h = tt
IsTight-IsFrom p (c ∷ cs) h = (h.0.from_dirty, IsTight-IsFrom p cs h.1)

-- For two pages of bytes of one size that fits u32 offsets, the diff is computed, and applying it
-- to the baseline succeeds and gives the dirty page back.
pub apply_patch-compute_diff :
    (vaddr : ℕ) (p : Pages)
    → IsPair p
    → (diff : PageDiffList) × (compute_diff vaddr p.dirty p.base ≡ ok diff)
      × (apply_patch p.base diff ≡ (p.dirty, ok tt))
unfolding apply_patch
apply_patch-compute_diff vaddr p v =
    (diff_of vaddr p, compute_diff_ok vaddr p v.same_size, λ i. (page i, done i))
  where
    from : All (IsFrom p.dirty (length p.dirty)) (diff_chunks p)
    from = IsTight-IsFrom p (diff_chunks p) (diff_chunks-IsTight p v)

    done : (apply_chunks p.base (diff_chunks p)).1 ≡ ok tt
    done =
        (apply_chunks_ok p.dirty (length p.dirty) p.base (diff_chunks p) from (sym v.same_size)).0

    size : length (apply_chunks p.base (diff_chunks p)).0 ≡ length p.dirty
    size =
        (apply_chunks_ok p.dirty (length p.dirty) p.base (diff_chunks p) from (sym v.same_size)).1

    page : (apply_chunks p.base (diff_chunks p)).0 ≡ p.dirty
    page = eq_of_get_or _ _ 0 size λ i lt.
        byte_at-apply_chunks_in p.dirty (length p.dirty) p.base (diff_chunks p) i from
          (sym v.same_size) (diff_chunks-Accounts p v i (omega arith) (omega (arith, size)))

Covers-cases : (i : ℕ) (cs : List PageDiffChunk) → Covers i cs ⊎ (¬ Covers i cs)
Covers-cases i [] = inr (λ m. m)
Covers-cases i (c ∷ cs) = elim (Covers-cases i cs) [
  | inl m ↦ inl (inr m)
  | inr out ↦ elim (Bool-cases (leb c.offset i && ltb i (c.offset + length c.bytes))) [
    | inl within ↦ inl (inl (ground arith))
    | inr beyond ↦ inr (λ m. elim m [ inl h ↦ ground arith | inr h ↦ out h ])
  ]
]

-- For such a pair of pages, applying the patch to another page of the same size succeeds, keeps its
-- size, and leaves each byte either equal to the dirty page's or, where dirty page and baseline
-- agree, as it was.
pub apply_patch_merges :
    (vaddr : ℕ) (p : Pages) (target : List ℕ) (i : ℕ)
    → IsPair p
    → length target ≡ length p.dirty
    → i < length p.dirty
    → let r = apply_patch target (diff_of vaddr p) in
      (r.1 ≡ ok tt)
      × (length r.0 ≡ length target)
      × ((byte_at r.0 i ≡ byte_at p.dirty i)
          ⊎ ((byte_at r.0 i ≡ byte_at target i) × (byte_at p.dirty i ≡ byte_at p.base i)))
unfolding apply_patch
apply_patch_merges vaddr p target i v size lt = (
  ok_size.0,
  ok_size.1 ∙ sym size,
  elim (Covers-cases i (diff_chunks p)) [
    | inl m ↦ inl (byte_at-apply_chunks_in p.dirty _ target (diff_chunks p) i from size (inr m))
    | inr out ↦ inr (
      byte_at-apply_chunks_out p.dirty _ target (diff_chunks p) i from size out,
      elim (diff_chunks-Accounts p v i (omega arith) lt) [
        | inl same ↦ sym same
        | inr m ↦ absurd (out m)
      ],
    )
  ],
)
  where
    from : All (IsFrom p.dirty (length p.dirty)) (diff_chunks p)
    from = IsTight-IsFrom p (diff_chunks p) (diff_chunks-IsTight p v)

    ok_size :
        ((apply_chunks target (diff_chunks p)).1 ≡ ok tt)
        × (length (apply_chunks target (diff_chunks p)).0 ≡ length p.dirty)
    ok_size = apply_chunks_ok p.dirty (length p.dirty) target (diff_chunks p) from size

-- For such a pair of pages, every chunk of the computed patch lies in the page, is not empty, holds
-- the dirty page's bytes and begins and ends with a byte that differs from the baseline.
pub compute_diff-IsTight :
    (vaddr : ℕ) (p : Pages) (diff : PageDiffList)
    → IsPair p
    → compute_diff vaddr p.dirty p.base ≡ ok diff
    → All (IsTight p) diff.chunks
compute_diff-IsTight vaddr p diff v e =
    subst (λ d. All (IsTight p) d.chunks) same (diff_chunks-IsTight p v)
  where
    same : diff_of vaddr p ≡ diff
    same = ground (arith, compute_diff_ok vaddr p v.same_size)

agrees : {p : Pages} (i : ℕ) → p.dirty ≡ p.base → same_byte p i ≡ false → ⊥
unfolding same_byte
agrees {p} i same h = ground (arith, ap (λ q. byte_at q i) same)

-- For such a pair of pages, the computed patch is empty exactly when the pages are equal.
pub compute_diff-nil_iff :
    (vaddr : ℕ) (p : Pages) (diff : PageDiffList)
    → IsPair p
    → compute_diff vaddr p.dirty p.base ≡ ok diff
    → (diff.chunks ≡ []) ↔ (p.dirty ≡ p.base)
compute_diff-nil_iff vaddr p diff v e =
    (λ none_left. same_pages none_left, λ same. no_chunks diff.chunks same tight)
  where
    tight : All (IsTight p) diff.chunks
    tight = compute_diff-IsTight vaddr p diff v e

    chunks_lem : diff_chunks p ≡ diff.chunks
    chunks_lem = ground (arith, compute_diff_ok vaddr p v.same_size)

    same_pages : diff.chunks ≡ [] → p.dirty ≡ p.base
    same_pages z = eq_of_get_or p.dirty p.base 0 v.same_size λ i lt.
        elim (diff_chunks-Accounts p v i (omega arith) lt) [
          | inl same ↦ sym same
          | inr m ↦ absurd (subst (Covers i) (chunks_lem ∙ z) m)
        ]

    no_chunks : (cs : List PageDiffChunk) → p.dirty ≡ p.base → All (IsTight p) cs → cs ≡ []
    no_chunks [] same t = refl
    no_chunks (c ∷ cs) same t = absurd (agrees {p = p} c.offset same t.0.first_differs)

apply_chunks-ok_iff :
    (n : ℕ) (target : List ℕ) (cs : List PageDiffChunk)
    → length target ≡ n
    → (((apply_chunks target cs).1 ≡ ok tt) ↔ All (λ c. c.offset + length c.bytes ≤ n) cs)
      × (length (apply_chunks target cs).0 ≡ n)
unfolding apply_chunks
apply_chunks-ok_iff n target [] size = ((λ _. tt, λ _. refl), size)
apply_chunks-ok_iff n target (c ∷ cs) size =
    let rest =
      apply_chunks-ok_iff n (copy_at target c.offset c.bytes) cs
        (length-copy_at target c.offset c.bytes ∙ size) in
    elim (Bool-cases (ltb (length target) (c.offset + length c.bytes))) [
      | inl over ↦ rw over ((λ e. absurd (ground arith), λ h. absurd (ground arith)), size)
      | inr fits ↦ rw fits ((λ e. (ground arith, rest.0.0 e), λ h. rest.0.1 h.1), rest.1)
    ]

-- A patch is applied to the end exactly when every chunk ends inside the target, and on both
-- branches the target keeps its size.
pub apply_patch-ok_iff :
    (target : List ℕ) (diff : PageDiffList)
    → (((apply_patch target diff).1 ≡ ok tt)
        ↔ All (λ c. c.offset + length c.bytes ≤ length target) diff.chunks)
      × (length (apply_patch target diff).0 ≡ length target)
unfolding apply_patch
apply_patch-ok_iff target diff = apply_chunks-ok_iff (length target) target diff.chunks refl
