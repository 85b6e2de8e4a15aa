-- ===== src/Radix/Paths.antt =====
-- Addresses of src/index/src/radix_tree.rs as the paths of their chunks.
use virthub.Common.{
  ℕ, zero, suc, ◌-◌, ◌/◌, ◌%◌, ◌^◌, ◌<◌, ◌≡◌, refl, Bool, true, ◌&&◌, ◌==◌, bit_and, arith,
}
use virthub.Common.Bits.{and_ones}
use virthub.Radix.{extract_chunk}

-- The chunk that decides when `left` levels are to go.
abbrev pub chunk_at : ℕ → ℕ → ℕ
chunk_at left vaddr = extract_chunk vaddr (4 - left)

-- Two addresses take the same path through the last `left` levels.
unfoldable pub same_path : (left a b : ℕ) → Bool
same_path zero a b = true
same_path (suc left) a b = chunk_at (suc left) a == chunk_at (suc left) b && same_path left a b

chunk_lem : (vaddr k : ℕ) → bit_and (vaddr / k) 0xFFFF ≡ vaddr / k % 65536
chunk_lem vaddr k = and_ones 16 (vaddr / k) 0xFFFF refl

pub same_path-four : (a b : ℕ) → a < 2 ^ 64 → b < 2 ^ 64 → same_path 4 a b ≡ (a == b)
unfolding same_path extract_chunk
same_path-four a b ha hb = ground (
  arith,
  chunk_lem a 1,
  chunk_lem a (2 ^ 16),
  chunk_lem a (2 ^ 32),
  chunk_lem a (2 ^ 48),
  chunk_lem b 1,
  chunk_lem b (2 ^ 16),
  chunk_lem b (2 ^ 32),
  chunk_lem b (2 ^ 48),
)
