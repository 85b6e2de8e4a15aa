-- ===== src/Precision/Predictor/Decision.antt =====
-- What `predict` decides for a model's predictor, against the boundaries on unbounded numbers.
use virthub.Common.{
  ℕ, ◌+◌, ◌-◌, ◌%◌, ◌^◌, ◌<◌, ◌≤◌, ◌≡◌, ◌⊎◌, inl, inr, refl, Bool, true, false, ◌||◌, some,
  if◌then◌else◌, ltb, ◌==◌, arith, bit_and, subst, sym, Bool-cases,
}
use virthub.Common.Word.{u64_mod}
use virthub.Common.Bits.{and_ones}
use virthub.Precision.Hysteresis.{MemoryPressureState, critical}
use virthub.Precision.Lut.{layer_profile, get_elem?-build_layer_profiles}
use virthub.Precision.Policy
use virthub.Precision.Policy.{
  PrecisionLevel, fp16, fp8, fp8_residual, pruned, as_u32, PackedBlockPolicy,
  LayerSensitivityProfile, precision, use_residual, head_mask,
}
use virthub.Precision.Policy.Packing.{accessors-new}
use virthub.Precision.Predictor.{new, predict, predict_layer, scored_precision, full_head_mask}

-- Inside the two windows, on numbers that do not wrap.
abbrev pub IsWindowed : ℕ → ℕ → ℕ → ℕ → Type 0
IsWindowed sink near token_start seq_len = (token_start < sink) ⊎ (seq_len < token_start + near)

-- One of the first two or last two layers.
abbrev pub IsBoundary : ℕ → ℕ → Type 0
IsBoundary total l = (l < 2) ⊎ (total ≤ l + 2)

-- `predict` is total on the model's layers: the lossless word inside the windows, and the layer's
-- decision outside of them.
pub predict_total :
    (total l ts seq : ℕ) (h : MemoryPressureState) (mask : ℕ) (flag : Bool)
    → l < total
    → ts ≤ seq
    → seq < u64_mod
    → predict (new total) l ts seq h mask flag
      ≡ some (
          if ltb ts 16 || ltb (seq - ts) 64
          then Policy.new fp16 false full_head_mask
          else predict_layer (layer_profile total l) h mask flag)
unfolding predict new
predict_total total l ts seq h mask flag inside ordered fits =
    ground (arith, get_elem?-build_layer_profiles total l inside)

-- The level chosen for a layer with a given profile.
abbrev pub layer_level : LayerSensitivityProfile → MemoryPressureState → Bool → PrecisionLevel
layer_level prof h flag =
    if prof.is_critical then elim h [ critical ↦ fp8 | _ ↦ fp16 ] else scored_precision prof h flag

-- The fields that a word of level `p` must have, for the caller's mask `mask`.
abbrev pub HasFields : PackedBlockPolicy → PrecisionLevel → ℕ → Type 0
HasFields b p mask =
    (precision b ≡ p)
    × (use_residual b ≡ (as_u32 p == 2))
    × (head_mask b ≡ (if as_u32 p == 3 then mask % 2 ^ 24 else full_head_mask))

fields-new :
    (p : PrecisionLevel) (mask : ℕ)
    → HasFields
        (Policy.new p
          (as_u32 p == 2)
          (if as_u32 p == 3 then bit_and mask full_head_mask else full_head_mask))
        p
        mask
unfolding as_u32
fields-new fp16 mask = ground (arith, accessors-new fp16 false full_head_mask)
fields-new fp8 mask = ground (arith, accessors-new fp8 false full_head_mask)
fields-new fp8_residual mask = ground (arith, accessors-new fp8_residual true full_head_mask)
fields-new pruned mask = ground (
  arith,
  accessors-new pruned false (bit_and mask full_head_mask),
  and_ones 24 mask full_head_mask refl,
)

pub fields-lossless : (mask : ℕ) → HasFields (Policy.new fp16 false full_head_mask) fp16 mask
unfolding as_u32
fields-lossless mask = fields-new fp16 mask

-- A word with the fields of some level has the fields of its own.
pub HasFields-own :
    (b : PackedBlockPolicy) (p : PrecisionLevel) (mask : ℕ)
    → HasFields b p mask
    → HasFields b (precision b) mask
HasFields-own b p mask f = subst (λ q. HasFields b q mask) (sym f.0) f

-- A layer's word has the level chosen for its profile, the residual bit exactly at the residual
-- level, and the caller's 24-bit mask at the pruned level and the full mask at any other.
pub fields-predict_layer :
    (prof : LayerSensitivityProfile) (h : MemoryPressureState) (mask : ℕ) (flag : Bool)
    → HasFields (predict_layer prof h mask flag) (layer_level prof h flag) mask
unfolding predict_layer
fields-predict_layer prof h mask flag = elim (Bool-cases prof.is_critical) [
  | inl c ↦ rw c (ground (arith, fields-new fp8 mask, fields-new fp16 mask))
  | inr c ↦ rw c (fields-new (scored_precision prof h flag) mask)
]
