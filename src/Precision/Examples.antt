-- ===== src/Precision/Examples.antt =====
-- The precision predictor of src/precision on a model of 32 layers.
use virthub.Common.{◌/◌, ◌%◌, ◌^◌, ◌<◌, ◌≤◌, ◌≡◌, ◌≢◌, ◌↔◌, ◌⊎◌, refl, true, false, some, arith}
use virthub.Precision.Hysteresis.{nominal, critical, as_u8}
use virthub.Precision.Lut.{layer_profile, build_layer_profiles}
use virthub.Precision.Policy
use virthub.Precision.Policy.{
  PackedBlockPolicy, fp16, fp8, pruned, as_u32, from_raw, precision, use_residual, head_mask,
}
use virthub.Precision.Policy.Packing.{accessors-new}
use virthub.Precision.Predictor
use virthub.Precision.Predictor.{predict, predict_batch}
use virthub.Precision.Predictor.Decision.{IsBoundary}
use virthub.Precision.Predictor.Guarantees.{
  IsInner, compression, predict-pruned_iff, predict-fp16_iff, predict_mono,
}

accessors-new_example :
    let b = Policy.new pruned false 0x1_0000_0005 in
    (precision b ≡ pruned)
    × (use_residual b ≡ false)
    × (head_mask b ≡ 5)
    × (b.word < 2 ^ 32)
    × (b.word / 2 ^ 3 % 2 ^ 5 ≡ 0)
accessors-new_example = accessors-new pruned false 0x1_0000_0005

-- A block in the middle of a long sequence, in layer 16.
abbrev word : PackedBlockPolicy
word = Policy.new pruned false 6

predicted : predict (Predictor.new 32) 16 100 1000 critical 6 false ≡ some word
unfolding predict Predictor.new build_layer_profiles Policy.new layer_profile
predicted = refl

predict-pruned_iff_example : (precision word ≡ pruned) ↔ (
    (16 ≤ 100)
    × (164 ≤ 1000)
    × IsInner 32 16
    × (8 ≤ 16)
    × (16 ≤ 24)
    × (false ≡ false)
    × (critical ≡ critical))
predict-pruned_iff_example =
    predict-pruned_iff 32 16 100 1000 critical 6 false (omega arith) (omega arith) (omega arith)
      (omega arith) word predicted

predict-fp16_iff_example : (precision word ≡ fp16) ↔ (
    (100 < 16)
    ⊎ (1000 < 164)
    ⊎ (IsBoundary 32 16 × (critical ≢ critical))
    ⊎ (((16 < 4) ⊎ (32 ≤ 20)) × (false ≡ true) × (critical ≡ nominal)))
predict-fp16_iff_example =
    predict-fp16_iff 32 16 100 1000 critical 6 false (omega arith) (omega arith) (omega arith)
      (omega arith) word predicted

abbrev calm_word : PackedBlockPolicy
calm_word = Policy.new fp8 false 0xFF_FFFF

predicted_calm : predict (Predictor.new 32) 16 100 1000 nominal 6 false ≡ some calm_word
unfolding predict Predictor.new build_layer_profiles Policy.new layer_profile
predicted_calm = refl

predict_mono_example : compression (precision calm_word) ≤ compression (precision word)
unfolding as_u8
predict_mono_example =
    predict_mono 32 16 100 1000 6 nominal critical false calm_word word (omega arith) (omega arith)
      (omega arith) (omega arith) predicted_calm predicted
