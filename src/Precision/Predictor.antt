-- ===== src/Precision/Predictor.antt =====
-- src/precision/src/predictor.rs: the allocation-time precision predictor.
-- `none` is a panic: an index past the layer table, or batch slices of different lengths.
pub mod Decision
pub mod Guarantees
pub mod Batch
use virthub.Common.{
  ℕ, ◌+◌, Bool, true, false, ◌&&◌, ◌||◌, Option, none, some, List, [], ◌∷◌, if◌then◌else◌, ltb, leb,
  ◌==◌, length, get_elem?, bit_and,
}
use virthub.Common.Word.{sub64}
use virthub.Precision.Hysteresis.{MemoryPressureState, nominal, critical, as_u8}
use virthub.Precision.Lut.{build_layer_profiles}
use virthub.Precision.Policy
use virthub.Precision.Policy.{
  PrecisionLevel, fp16, fp8, fp8_residual, pruned, as_u32, PackedBlockPolicy,
  LayerSensitivityProfile,
}

abbrev pub sink_window_default : ℕ
sink_window_default = 16

abbrev pub local_window_default : ℕ
local_window_default = 64

abbrev pub full_head_mask : ℕ
full_head_mask = 0xFF_FFFF

pub record Predictor : Type 0 where
  pub profiles : List LayerSensitivityProfile
  pub sink_window : ℕ
  pub local_window : ℕ

unfoldable pub with_windows : ℕ → ℕ → ℕ → Predictor
with_windows total_layers sink_window local_window = record {
  profiles = build_layer_profiles total_layers;
  sink_window = sink_window;
  local_window = local_window;
}

unfoldable pub new : ℕ → Predictor
unfolding with_windows
new total_layers = with_windows total_layers sink_window_default local_window_default

-- `==` of the two enums
abbrev state_eq : MemoryPressureState → MemoryPressureState → Bool
unfolding as_u8
state_eq a b = as_u8 a == as_u8 b

abbrev level_eq : PrecisionLevel → PrecisionLevel → Bool
unfolding as_u32
level_eq a b = as_u32 a == as_u32 b

-- Steps 3 and 4 of `predict`: the score of a layer and the level that it maps to.
unfoldable pub scored_precision :
    LayerSensitivityProfile → MemoryPressureState → Bool → PrecisionLevel
unfolding as_u8
scored_precision prof h_mem retrieval_flag =
    let score = prof.base_bonus + (if retrieval_flag then 2 else 0) in
    if leb 3 score
    then (if state_eq h_mem nominal then fp16 else fp8_residual)
    else if score == 0 && (state_eq h_mem critical && prof.can_prune)
    then pruned
    else fp8

-- Steps 2 to 4 of `predict`, once the layer's profile is read.
unfoldable pub predict_layer :
    LayerSensitivityProfile → MemoryPressureState → ℕ → Bool → PackedBlockPolicy
unfolding scored_precision as_u8 as_u32
predict_layer prof h_mem head_mask retrieval_flag =
    if prof.is_critical
    then Policy.new (if state_eq h_mem critical then fp8 else fp16) false full_head_mask
    else let level = scored_precision prof h_mem retrieval_flag in
      Policy.new level (level_eq level fp8_residual)
        (if level_eq level pruned then bit_and head_mask full_head_mask else full_head_mask)

-- `seq_len - token_start` wraps on usize.
unfoldable pub predict :
    Predictor → ℕ → ℕ → ℕ → MemoryPressureState → ℕ → Bool → Option PackedBlockPolicy
unfolding predict_layer
predict p layer_idx token_start seq_len h_mem head_mask retrieval_flag =
    if ltb token_start p.sink_window || ltb (sub64 seq_len token_start) p.local_window
    then some (Policy.new fp16 false full_head_mask)
    else elim (get_elem? p.profiles layer_idx) [
      | none ↦ none
      | some prof ↦ some (predict_layer prof h_mem head_mask retrieval_flag)
    ]

-- The zipped iteration of `predict_batch`.
predict_zipped :
    Predictor
    → ℕ
    → List ℕ
    → ℕ
    → MemoryPressureState
    → List ℕ
    → List Bool
    → Option (List PackedBlockPolicy)
unfolding predict
predict_zipped p layer_idx (ts ∷ tss) seq_len h_mem (hm ∷ hms) (rf ∷ rfs) =
    elim (predict p layer_idx ts seq_len h_mem hm rf) [
      | none ↦ none
      | some b ↦ elim (predict_zipped p layer_idx tss seq_len h_mem hms rfs) [
        | none ↦ none
        | some bs ↦ some (b ∷ bs)
      ]
    ]
predict_zipped p layer_idx _ seq_len h_mem _ _ = some []

unfoldable pub predict_batch :
    Predictor
    → ℕ
    → List ℕ
    → ℕ
    → MemoryPressureState
    → List ℕ
    → List Bool
    → Option (List PackedBlockPolicy)
unfolding predict_zipped
predict_batch p layer_idx token_starts seq_len h_mem head_masks retrieval_flags =
    if length token_starts == length head_masks && length token_starts == length retrieval_flags
    then predict_zipped p layer_idx token_starts seq_len h_mem head_masks retrieval_flags
    else none
