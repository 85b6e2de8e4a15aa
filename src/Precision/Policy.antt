-- ===== src/Precision/Policy.antt =====
-- src/precision/src/policy.rs: precision levels, the packed policy word and layer profiles.
pub mod Packing
use virthub.Common.{ℕ, ◌*◌, ◌/◌, ◌%◌, ◌^◌, Bool, true, false, if◌then◌else◌, ◌==◌, bit_and, bit_or}
use virthub.Common.Word.{u32_mod}

pub data PrecisionLevel : Type 0 where
  fp16 fp8 fp8_residual pruned : PrecisionLevel

-- `precision as u32`
unfoldable pub as_u32 : PrecisionLevel → ℕ
as_u32 fp16 = 0
as_u32 fp8 = 1
as_u32 fp8_residual = 2
as_u32 pruned = 3

unfoldable pub from_u8 : ℕ → PrecisionLevel
from_u8 v = if v == 0 then fp16 else if v == 1 then fp8 else if v == 2 then fp8_residual else pruned

pub record PackedBlockPolicy : Type 0 where
  pub word : ℕ  -- u32

-- `PackedBlockPolicy::new`; the shifts are on u32 and drop what leaves the word.
unfoldable pub new : PrecisionLevel → Bool → ℕ → PackedBlockPolicy
unfolding as_u32
new level residual head_mask =
    let p_bits = as_u32 level in
    let r_bit : ℕ = if residual then 1 else 0 in
    let mask = bit_and head_mask 0xFF_FFFF in
    record { word = bit_or (bit_or p_bits (r_bit * 2 ^ 2 % u32_mod)) (mask * 2 ^ 8 % u32_mod) }

unfoldable pub from_raw : ℕ → PackedBlockPolicy
from_raw raw = record { word = raw }

unfoldable pub precision : PackedBlockPolicy → PrecisionLevel
unfolding from_u8
precision p = from_u8 (bit_and p.word 0x3 % 2 ^ 8)

unfoldable pub use_residual : PackedBlockPolicy → Bool
use_residual p = bit_and (p.word / 2 ^ 2) 1 == 1

unfoldable pub head_mask : PackedBlockPolicy → ℕ
head_mask p = bit_and (p.word / 2 ^ 8) 0xFF_FFFF

pub record LayerSensitivityProfile : Type 0 where
  pub base_bonus : ℕ  -- u8
  pub is_critical : Bool
  pub can_prune : Bool
