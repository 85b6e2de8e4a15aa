-- ===== src/Diff/Patch.antt =====
-- What `apply_patch` of src/klnk/klnk-core/src/diff.rs does to each byte of its target.
use virthub.Common.{
  ℕ, zero, suc, ◌+◌, ◌-◌, ◌≤◌, ◌<◌, ◌≡◌, ◌⊎◌, inl, inr, refl, ap, ◌∙◌, List, [], ◌∷◌, length, All,
  arith, if◌then◌else◌, ltb, leb, ◌&&◌,
}
use virthub.Common.Result.{ok}
use virthub.Diff.{PageDiffChunk, byte_at, copy_at, apply_chunks}

pub length-copy_at :
    (page : List ℕ) (s : ℕ) (bs : List ℕ) → length (copy_at page s bs) ≡ length page
unfolding copy_at
length-copy_at [] s bs = refl
length-copy_at (x ∷ page) zero [] = refl
length-copy_at (x ∷ page) zero (b ∷ bs) = ap suc (length-copy_at page zero bs)
length-copy_at (x ∷ page) (suc s) bs = ap suc (length-copy_at page s bs)

-- A copy writes its range and nothing else.
pub byte_at-copy_at :
    (page : List ℕ) (s : ℕ) (bs : List ℕ) (i : ℕ)
    → s + length bs ≤ length page
    → byte_at (copy_at page s bs) i
      ≡ (if leb s i && ltb i (s + length bs) then byte_at bs (i - s) else byte_at page i)
unfolding copy_at
byte_at-copy_at [] s bs i h = ground arith
byte_at-copy_at (x ∷ page) zero [] i h = ground arith
byte_at-copy_at (x ∷ page) zero (b ∷ bs) zero h = ground arith
byte_at-copy_at (x ∷ page) zero (b ∷ bs) (suc i) h = ground (arith, byte_at-copy_at page zero bs i)
byte_at-copy_at (x ∷ page) (suc s) bs zero h = ground arith
byte_at-copy_at (x ∷ page) (suc s) bs (suc i) h = ground (arith, byte_at-copy_at page s bs i)

-- Byte `i` lies in the chunk.
abbrev pub InChunk : ℕ → PageDiffChunk → Type 0
InChunk i c = (c.offset ≤ i) × (i < c.offset + length c.bytes)

-- Byte `i` lies in one of the chunks.
abbrev pub Covers : ℕ → List PageDiffChunk → Type 0
Covers i [] = ⊥
Covers i (c ∷ cs) = InChunk i c ⊎ Covers i cs

-- The chunk lies in a page of `n` bytes and holds what stands there in `dirty`.
pub record IsFrom (dirty : List ℕ) (n : ℕ) (c : PageDiffChunk) : Type 0 where
  pub inside : c.offset + length c.bytes ≤ n
  pub holds : (k : ℕ) → k < length c.bytes → byte_at c.bytes k ≡ byte_at dirty (c.offset + k)

module _ (dirty : List ℕ) (n : ℕ) where
  -- A patch whose chunks fit the page succeeds and keeps the page's size.
  pub apply_chunks_ok :
      (page : List ℕ) (cs : List PageDiffChunk)
      → All (IsFrom dirty n) cs
      → length page ≡ n
      → ((apply_chunks page cs).1 ≡ ok tt) × (length (apply_chunks page cs).0 ≡ n)
  unfolding apply_chunks
  apply_chunks_ok page [] h e = (refl, e)
  apply_chunks_ok page (c ∷ cs) h e = ground (
    arith,
    h.0.inside,
    length-copy_at page c.offset c.bytes,
    apply_chunks_ok (copy_at page c.offset c.bytes) cs h.1,
  )

  pub byte_at-apply_chunks_in :
      (page : List ℕ) (cs : List PageDiffChunk) (i : ℕ)
      → All (IsFrom dirty n) cs
      → length page ≡ n
      → (byte_at page i ≡ byte_at dirty i) ⊎ Covers i cs
      → byte_at (apply_chunks page cs).0 i ≡ byte_at dirty i
  unfolding apply_chunks
  byte_at-apply_chunks_in page [] i h e (inl same) = same
  byte_at-apply_chunks_in page [] i h e (inr covered) = absurd covered
  byte_at-apply_chunks_in page (c ∷ cs) i h e covered = ground (
    arith,
    h.0.inside,
    h.0.holds (i - c.offset),
    length-copy_at page c.offset c.bytes,
    byte_at-copy_at page c.offset c.bytes i,
    byte_at-apply_chunks_in (copy_at page c.offset c.bytes) cs i h.1,
    covered,
  )

  pub byte_at-apply_chunks_out :
      (page : List ℕ) (cs : List PageDiffChunk) (i : ℕ)
      → All (IsFrom dirty n) cs
      → length page ≡ n
      → ¬ Covers i cs
      → byte_at (apply_chunks page cs).0 i ≡ byte_at page i
  unfolding apply_chunks
  byte_at-apply_chunks_out page [] i h e out = refl
  byte_at-apply_chunks_out page (c ∷ cs) i h e out = ground (
    arith,
    h.0.inside,
    length-copy_at page c.offset c.bytes,
    byte_at-copy_at page c.offset c.bytes i,
    byte_at-apply_chunks_out (copy_at page c.offset c.bytes) cs i h.1
        (length-copy_at page c.offset c.bytes ∙ e) (λ m. out (inr m)),
    λ (m : InChunk i c). out (inl m),
  )
