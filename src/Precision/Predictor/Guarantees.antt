-- ===== src/Precision/Predictor/Guarantees.antt =====
-- The guarantees of `Predictor::predict` for a model of `total` layers and the default windows.
use virthub.Common.{
  ℕ, ◌+◌, ◌*◌, ◌/◌, ◌<◌, ◌≤◌, ◌≡◌, ◌≢◌, ◌↔◌, ◌⊎◌, ◌||◌, ◌-◌, Bool, true, false, some, if◌then◌else◌,
  ltb, arith, Bool-cases, Option-cases, inl, inr, get_elem?, subst,
}
use virthub.Common.Word.{u64_mod, sub64}
use virthub.Precision.Hysteresis.{MemoryPressureState, nominal, critical, as_u8}
use virthub.Precision.Lut.{layer_profile, layer_profile_iff}
use virthub.Precision.Policy
use virthub.Precision.Policy.{
  PrecisionLevel, fp16, fp8, fp8_residual, pruned, PackedBlockPolicy, LayerSensitivityProfile,
  precision, use_residual, head_mask,
}
use virthub.Precision.Policy.Packing.{accessors-new}
use virthub.Precision.Predictor.{
  Predictor, new, predict, predict_layer, scored_precision, full_head_mask,
}
use virthub.Precision.Predictor.Decision.{
  fields-lossless, HasFields-own, layer_level, HasFields, fields-predict_layer, predict_total,
  IsBoundary,
}

-- How far a level compresses: a residual beside an FP8 block keeps more of it than FP8 alone.
abbrev pub compression : PrecisionLevel → ℕ
compression fp16 = 0
compression fp8_residual = 1
compression fp8 = 2
compression pruned = 3

layer_level_mono :
    (prof : LayerSensitivityProfile) (h k : MemoryPressureState) (flag : Bool)
    → as_u8 h ≤ as_u8 k
    → compression (layer_level prof h flag) ≤ compression (layer_level prof k flag)
unfolding scored_precision as_u8
layer_level_mono prof h k flag le = ground arith

-- The layers outside of the four at each end.
abbrev pub IsInner : ℕ → ℕ → Type 0
IsInner total l = (4 ≤ l) × (l + 4 < total)

-- The level of the word that `predict` returns.
level_lem :
    (total l ts seq : ℕ) (h : MemoryPressureState) (mask : ℕ) (flag : Bool) (b : PackedBlockPolicy)
    → l < total
    → ts ≤ seq
    → seq < u64_mod
    → predict (new total) l ts seq h mask flag ≡ some b
    → precision b ≡ (
        if ltb ts 16 || ltb (seq - ts) 64 then fp16 else layer_level (layer_profile total l) h flag)
level_lem total l ts seq h mask flag b inside ordered fits e = ground (
  arith,
  predict_total total l ts seq h mask flag inside ordered fits,
  accessors-new fp16 false full_head_mask,
  fields-predict_layer (layer_profile total l) h mask flag,
)

module _ (total l ts seq : ℕ) (h : MemoryPressureState) (mask : ℕ) (flag : Bool)
    (inside : l < total) (small : 3 * total < u64_mod) (ordered : ts ≤ seq)
    (fits : seq < u64_mod) where
  -- For a layer of the model, a block inside its sequence and numbers that fit u64, a block is
  -- pruned exactly when it lies outside of the sink and local windows, in a layer of the middle
  -- half that is not among the four at either end, without a retrieval head, under critical memory
  -- pressure.
  pub predict-pruned_iff :
      (b : PackedBlockPolicy)
      → predict (new total) l ts seq h mask flag ≡ some b
      → (precision b ≡ pruned) ↔ (
          (16 ≤ ts)
          × (ts + 64 ≤ seq)
          × IsInner total l
          × (total / 4 ≤ l)
          × (l ≤ 3 * total / 4)
          × (flag ≡ false)
          × (h ≡ critical))
  unfolding scored_precision as_u8
  predict-pruned_iff b e = ground (
    arith,
    level_lem total l ts seq h mask flag b inside ordered fits e,
    layer_profile_iff total l inside small,
  )

  -- For a layer of the model, a block inside its sequence and numbers that fit u64, a block is
  -- stored lossless exactly when it lies in the sink or local window, or in a boundary layer while
  -- memory pressure is not critical, or, in one of the four layers at either end, holds a retrieval
  -- head while memory pressure is nominal.
  pub predict-fp16_iff :
      (b : PackedBlockPolicy)
      → predict (new total) l ts seq h mask flag ≡ some b
      → (precision b ≡ fp16) ↔ (
          (ts < 16)
          ⊎ (seq < ts + 64)
          ⊎ (IsBoundary total l × (h ≢ critical))
          ⊎ (((l < 4) ⊎ (total ≤ l + 4)) × (flag ≡ true) × (h ≡ nominal)))
  unfolding scored_precision as_u8
  predict-fp16_iff b e = ground (
    arith,
    level_lem total l ts seq h mask flag b inside ordered fits e,
    layer_profile_iff total l inside small,
  )

-- For a layer of the model and a block inside its sequence, higher memory pressure never gives a
-- block a less compressed level: with the levels ordered FP16, FP8 with residual, FP8, pruned, the
-- level that `predict` gives the same block does not come earlier under a higher pressure state.
pub predict_mono :
    (total l ts seq mask : ℕ) (h k : MemoryPressureState) (flag : Bool) (b c : PackedBlockPolicy)
    → l < total
    → ts ≤ seq
    → seq < u64_mod
    → as_u8 h ≤ as_u8 k
    → predict (new total) l ts seq h mask flag ≡ some b
    → predict (new total) l ts seq k mask flag ≡ some c
    → compression (precision b) ≤ compression (precision c)
predict_mono total l ts seq mask h k flag b c inside ordered fits le eb ec = ground (
  arith,
  level_lem total l ts seq h mask flag b inside ordered fits eb,
  level_lem total l ts seq k mask flag c inside ordered fits ec,
  layer_level_mono (layer_profile total l) h k flag le,
)

-- Every word that `predict` returns, for any predictor and input, has the residual bit exactly at
-- the residual level, and the caller's mask cut to 24 bits at the pruned level and the full mask at
-- every other level.
pub predict-HasFields :
    (p : Predictor) (l ts seq : ℕ) (h : MemoryPressureState) (mask : ℕ) (flag : Bool)
    (b : PackedBlockPolicy)
    → predict p l ts seq h mask flag ≡ some b
    → HasFields b (precision b) mask
unfolding predict
predict-HasFields p l ts seq h mask flag b e =
    elim (Bool-cases (ltb ts p.sink_window || ltb (sub64 seq ts) p.local_window)) [
      | inl lossless ↦
          own (Policy.new fp16 false full_head_mask) fp16 (ground arith) (fields-lossless mask)
      | inr scored ↦ elim (Option-cases (get_elem? p.profiles l)) [
        | inl missing ↦ absurd (ground arith)
        | inr (prof, found) ↦
            own (predict_layer prof h mask flag) (layer_level prof h flag) (ground arith)
              (fields-predict_layer prof h mask flag)
      ]
    ]
  where
    own :
        (c : PackedBlockPolicy) (q : PrecisionLevel)
        → c ≡ b
        → HasFields c q mask
        → HasFields b (precision b) mask
    own c q e f = subst (λ w. HasFields w (precision w) mask) e (HasFields-own c q mask f)
