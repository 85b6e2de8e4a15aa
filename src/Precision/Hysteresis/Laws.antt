-- ===== src/Precision/Hysteresis/Laws.antt =====
-- How the states of src/precision/src/hysteresis.rs follow the pressure ratio.
use virthub.Common.{◌⊎◌, ℕ, ◌≤◌, ◌≡◌, ◌≢◌, true, false, arith}
use virthub.Common.Float.{Float}
use virthub.Precision.Hysteresis.{MemoryPressureState, nominal, critical, as_u8, update}

module _ (F : Float) where
  -- Whatever the ratio, NaN included, one update never goes from Critical to Nominal.
  update_from_critical : (mu : F.Carrier) → update F critical mu ≢ nominal
  unfolding update
  update_from_critical mu = ground arith

  -- At a constant ratio that is not NaN the state settles after two updates at most.
  pub update_settles :
      (s : MemoryPressureState) (mu : F.Carrier)
      → F.is_nan mu ≡ false
      → update F (update F (update F s mu) mu) mu ≡ update F (update F s mu) mu
  unfolding update
  update_settles s mu h = ground (
    arith,
    F.lt_not_ge mu 70 h,
    F.lt_not_ge mu 82 h,
    F.ge_literal mu 78 88,
    F.ge_literal mu 82 88,
    F.ge_literal mu 70 88,
    F.ge_literal mu 70 78,
    F.ge_literal mu 70 82,
    F.ge_literal mu 78 82,
  )

  -- In the band from 0.70 to 0.78 Nominal and Elevated both stay as they are, and in the band from
  -- 0.82 to 0.88 Elevated and Critical do: a ratio that oscillates inside a band changes nothing.
  pub update_band :
      (s : MemoryPressureState) (mu : F.Carrier)
      → F.is_nan mu ≡ false
      → ((s ≢ critical) × (F.ge mu (F.literal 70) ≡ true) × (F.ge mu (F.literal 78) ≡ false))
        ⊎ ((s ≢ nominal) × (F.ge mu (F.literal 82) ≡ true) × (F.ge mu (F.literal 88) ≡ false))
      → update F s mu ≡ s
  unfolding update
  update_band s mu h band = ground (
    arith,
    band,
    F.lt_not_ge mu 70 h,
    F.lt_not_ge mu 82 h,
    F.ge_literal mu 78 88,
    F.ge_literal mu 70 82,
  )

  -- A higher ratio (one that passes every threshold that the lower one passes) never leads to a
  -- lower state from the same state.
  pub update_mono :
      (s : MemoryPressureState) (mu nu : F.Carrier)
      → F.is_nan mu ≡ false
      → F.is_nan nu ≡ false
      → ((n : ℕ) → F.ge mu (F.literal n) ≡ true → F.ge nu (F.literal n) ≡ true)
      → as_u8 (update F s mu) ≤ as_u8 (update F s nu)
  unfolding update as_u8
  update_mono s mu nu h k le = ground (
    arith,
    F.lt_not_ge mu 70 h,
    F.lt_not_ge mu 82 h,
    F.lt_not_ge nu 70 k,
    F.lt_not_ge nu 82 k,
    le 70,
    le 78,
    le 82,
    le 88,
  )
