-- ===== src/Diff/Coverage.antt =====
-- The chunks of `compute_diff` hold the dirty page's bytes and cover every byte that differs.
use virthub.Common.{
  ℕ, zero, suc, ◌+◌, ◌-◌, ◌≤◌, ◌<◌, ◌≡◌, ◌⊎◌, true, false, List, [], ◌∷◌, length, All, arith,
}
use virthub.Common.Word.{u32_mod}
use virthub.Diff.{PageDiffChunk, Pages, byte_at, load, same_byte, merge_words, trim_start, trim_end}
use virthub.Diff.Patch.{Covers}

abbrev pub IsByte : ℕ → Type 0
IsByte b = b < 256

pub byte_at-IsByte : (page : List ℕ) (i : ℕ) → All IsByte page → byte_at page i < 256
byte_at-IsByte [] i h = omega arith
byte_at-IsByte (x ∷ page) zero h = h.0
byte_at-IsByte (x ∷ page) (suc i) h = byte_at-IsByte page i h.1

-- Equal loads have equal bytes.
pub load_injective :
    (n : ℕ) (d b : List ℕ) (s i : ℕ)
    → All IsByte d
    → All IsByte b
    → load n d s ≡ load n b s
    → s ≤ i
    → i < s + n
    → byte_at d i ≡ byte_at b i
unfolding load
load_injective zero d b s i hd hb e lo hi = absurd (omega arith)
load_injective (suc n) d b s i hd hb e lo hi =
    ground
      (arith, byte_at-IsByte d s hd, byte_at-IsByte b s hb, load_injective n d b (s + 1) i hd hb)

-- Two pages of bytes, of one size that fits u32 offsets.
pub record IsPair (p : Pages) : Type 0 where
  pub same_size : length p.dirty ≡ length p.base
  pub small : length p.dirty ≤ u32_mod
  pub dirty_bytes : All IsByte p.dirty
  pub base_bytes : All IsByte p.base

module _ (p : Pages) where
  -- Bytes `lo` to `hi` agree wherever the chunks leave them out.
  abbrev pub Accounts : ℕ → ℕ → List PageDiffChunk → Type 0
  Accounts lo hi cs =
      (i : ℕ) → lo ≤ i → i < hi → (byte_at p.base i ≡ byte_at p.dirty i) ⊎ Covers i cs

  pub same_byte-eq : (i : ℕ) → same_byte p i ≡ true → byte_at p.base i ≡ byte_at p.dirty i
  unfolding same_byte
  same_byte-eq i h = ground arith

  pub merge_words_bounds : (n w : ℕ) → (w ≤ merge_words p n w) × (merge_words p n w ≤ w + n)
  unfolding merge_words
  merge_words_bounds zero w = (omega arith, omega arith)
  merge_words_bounds (suc n) w = ground (arith, merge_words_bounds n (w + 1))

  pub trim_start_bounds : (n s : ℕ) → (s ≤ trim_start p n s) × (trim_start p n s ≤ s + n)
  unfolding trim_start
  trim_start_bounds zero s = (omega arith, omega arith)
  trim_start_bounds (suc n) s = ground (arith, trim_start_bounds n (s + 1))

  pub trim_start_skips :
      (n s i : ℕ) → s ≤ i → i < trim_start p n s → byte_at p.base i ≡ byte_at p.dirty i
  unfolding trim_start
  trim_start_skips zero s i lo hi = absurd (omega arith)
  trim_start_skips (suc n) s i lo hi = ground (arith, trim_start_skips n (s + 1) i, same_byte-eq s)

  pub trim_end_bounds : (n e : ℕ) → n ≤ e → (e - n ≤ trim_end p n e) × (trim_end p n e ≤ e)
  unfolding trim_end
  trim_end_bounds zero e h = (omega arith, omega arith)
  trim_end_bounds (suc n) e h = ground (arith, trim_end_bounds n (e - 1))

  pub trim_end_skips :
      (n e i : ℕ) → n ≤ e → trim_end p n e ≤ i → i < e → byte_at p.base i ≡ byte_at p.dirty i
  unfolding trim_end
  trim_end_skips zero e i h lo hi = absurd (omega arith)
  trim_end_skips (suc n) e i h lo hi =
      ground (arith, trim_end_skips n (e - 1) i, same_byte-eq (e - 1))

  -- The two ends of a trimmed range differ.
  pub trim_start_stops :
      (n s : ℕ) → trim_start p n s < s + n → same_byte p (trim_start p n s) ≡ false
  unfolding trim_start
  trim_start_stops zero s h = absurd (omega arith)
  trim_start_stops (suc n) s h = ground (arith, trim_start_stops n (s + 1))

  pub trim_end_stops :
      (n e : ℕ) → n ≤ e → e < trim_end p n e + n → same_byte p (trim_end p n e - 1) ≡ false
  unfolding trim_end
  trim_end_stops zero e h k = absurd (omega arith)
  trim_end_stops (suc n) e h k = ground (arith, trim_end_stops n (e - 1))
