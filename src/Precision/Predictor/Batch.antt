-- ===== src/Precision/Predictor/Batch.antt =====
-- `Predictor::predict_batch` against `predict`.
use virthub.Common.{
  ℕ, ◌≡◌, ◌↔◌, refl, Bool, some, List, [], ◌∷◌, length, arith, Option-cases, inl, inr,
}
use virthub.Precision.Hysteresis.{MemoryPressureState}
use virthub.Precision.Policy.{PackedBlockPolicy}
use virthub.Precision.Predictor.{Predictor, predict, predict_zipped, predict_batch}

module _ (p : Predictor) (l seq : ℕ) (h : MemoryPressureState) where
  -- Entry by entry, what single calls return.
  abbrev pub SinglePredictions : List ℕ → List ℕ → List Bool → List PackedBlockPolicy → Type 0
  SinglePredictions (ts ∷ tss) (hm ∷ hms) (rf ∷ rfs) (b ∷ bs) =
      (predict p l ts seq h hm rf ≡ some b) × SinglePredictions tss hms rfs bs
  SinglePredictions [] [] [] [] = Unit {0}
  SinglePredictions _ _ _ _ = ⊥

  zipped_single :
      (tss hms : List ℕ) (rfs : List Bool) (bs : List PackedBlockPolicy)
      → length tss ≡ length hms
      → length tss ≡ length rfs
      → predict_zipped p l tss seq h hms rfs ≡ some bs
      → SinglePredictions tss hms rfs bs
  unfolding predict_zipped
  zipped_single (ts ∷ tss) (hm ∷ hms) (rf ∷ rfs) (b ∷ bs) e f g =
      elim (Option-cases (predict p l ts seq h hm rf)) [
        | inl no_word ↦ absurd (ground arith)
        | inr (w, word) ↦ elim (Option-cases (predict_zipped p l tss seq h hms rfs)) [
          | inl no_rest ↦ absurd (ground arith)
          | inr (ws, rest) ↦ (
            ground arith,
            zipped_single tss hms rfs bs (omega arith) (omega arith) (ground arith),
          )
        ]
      ]
  zipped_single [] [] [] [] e f g = tt
  zipped_single [] [] [] (b ∷ bs) e f g = cc
  zipped_single [] (hm ∷ hms) rfs bs e f g = absurd (omega arith)
  zipped_single [] [] (rf ∷ rfs) bs e f g = absurd (omega arith)
  zipped_single (ts ∷ tss) [] rfs bs e f g = absurd (omega arith)
  zipped_single (ts ∷ tss) (hm ∷ hms) [] bs e f g = absurd (omega arith)
  zipped_single (ts ∷ tss) (hm ∷ hms) (rf ∷ rfs) [] e f g = ground arith

  single_zipped :
      (tss hms : List ℕ) (rfs : List Bool) (bs : List PackedBlockPolicy)
      → SinglePredictions tss hms rfs bs
      → (length tss ≡ length hms)
        × (length tss ≡ length rfs)
        × (predict_zipped p l tss seq h hms rfs ≡ some bs)
  unfolding predict_zipped
  single_zipped [] [] [] [] s = (refl, refl, refl)
  single_zipped (ts ∷ tss) (hm ∷ hms) (rf ∷ rfs) (b ∷ bs) s =
      ground (arith, single_zipped tss hms rfs bs s.1)
  single_zipped [] [] [] (b ∷ bs) s = absurd s
  single_zipped [] (hm ∷ hms) rfs bs s = absurd s
  single_zipped [] [] (rf ∷ rfs) bs s = absurd s
  single_zipped (ts ∷ tss) [] rfs bs s = absurd s
  single_zipped (ts ∷ tss) (hm ∷ hms) [] bs s = absurd s
  single_zipped (ts ∷ tss) (hm ∷ hms) (rf ∷ rfs) [] s = absurd s

  -- A batch returns a list of words exactly when the three slices have the same length and the words
  -- are, entry by entry, those that single calls of `predict` return; otherwise it panics.
  pub predict_batch_iff :
      (tss hms : List ℕ) (rfs : List Bool) (bs : List PackedBlockPolicy)
      → (predict_batch p l tss seq h hms rfs ≡ some bs) ↔ SinglePredictions tss hms rfs bs
  unfolding predict_batch
  predict_batch_iff tss hms rfs bs = (
    λ e. zipped_single tss hms rfs bs (ground arith) (ground arith) (ground arith),
    λ s. ground (arith, single_zipped tss hms rfs bs s),
  )
