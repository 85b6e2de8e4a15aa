-- ===== src/TierManager.antt =====
-- src/store/src/tier_manager.rs: the usage counters of the storage tiers. The watermarks, which no operation
-- reads, are left out. `try_allocate` reads the counter and adds to it in two steps.
pub mod Races
mod Examples
use virthub.Common.{ℕ, ◌+◌, ◌-◌, ◌*◌, Bool, true, false, List, [], ◌∷◌, if◌then◌else◌, leb, min}
use virthub.Common.Word.{add64, u64_mod}

pub data StorageTier : Type 0 where
  dram ssd vram : StorageTier

unfoldable pub max_capacity_bytes : StorageTier → ℕ
max_capacity_bytes dram = 16 * 1024 * 1024 * 1024
max_capacity_bytes ssd = 256 * 1024 * 1024 * 1024
max_capacity_bytes vram = 8 * 1024 * 1024 * 1024

pub record StorageTierManager : Type 0 where
  pub dram_used_bytes : ℕ
  pub ssd_used_bytes : ℕ
  pub vram_used_bytes : ℕ

unfoldable pub new : StorageTierManager
new = record { dram_used_bytes = 0; ssd_used_bytes = 0; vram_used_bytes = 0 }

-- `get_counter` for reading and for writing.
unfoldable pub get_usage : StorageTierManager → StorageTier → ℕ
get_usage s dram = s.dram_used_bytes
get_usage s ssd = s.ssd_used_bytes
get_usage s vram = s.vram_used_bytes

unfoldable pub set_usage : StorageTierManager → StorageTier → ℕ → StorageTierManager
set_usage s dram n = record s { dram_used_bytes = n }
set_usage s ssd n = record s { ssd_used_bytes = n }
set_usage s vram n = record s { vram_used_bytes = n }

unfoldable pub allocate : StorageTierManager → StorageTier → ℕ → StorageTierManager
unfolding get_usage set_usage
allocate s tier size_bytes = set_usage s tier (add64 (get_usage s tier) size_bytes)

-- The loop that exchanges the counter ends with a saturating subtraction from what it holds then.
unfoldable pub deallocate : StorageTierManager → StorageTier → ℕ → StorageTierManager
unfolding get_usage set_usage
deallocate s tier size_bytes = set_usage s tier (get_usage s tier - size_bytes)

-- `saturating_add` stops at 2^64 - 1.
unfoldable pub can_allocate : StorageTierManager → StorageTier → ℕ → Bool
unfolding get_usage max_capacity_bytes
can_allocate s tier size_bytes =
    leb (min (get_usage s tier + size_bytes) (u64_mod - 1)) (max_capacity_bytes tier)

unfoldable pub try_allocate : StorageTierManager → StorageTier → ℕ → StorageTierManager × Bool
unfolding can_allocate allocate
try_allocate s tier size_bytes =
    if can_allocate s tier size_bytes then (allocate s tier size_bytes, true) else (s, false)

unfoldable pub allocate_batch : StorageTierManager → List (StorageTier × ℕ) → StorageTierManager
unfolding allocate
allocate_batch s [] = s
allocate_batch s ((tier, size) ∷ xs) = allocate_batch (allocate s tier size) xs

unfoldable pub deallocate_batch : StorageTierManager → List (StorageTier × ℕ) → StorageTierManager
unfolding deallocate
deallocate_batch s [] = s
deallocate_batch s ((tier, size) ∷ xs) = deallocate_batch (deallocate s tier size) xs
