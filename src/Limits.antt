-- ===== src/Limits.antt =====
-- src/klnk/klnk-daemon/src/limits.rs: memory and descriptor limits with backpressure.
-- A compare-and-exchange loop takes effect in one step, at the exchange that succeeds: a failed one
-- reloads the counter and computes again. An operation that updates the backpressure flag as well is
-- two steps, between which those of other threads may come.
pub mod Bounds
pub mod Backpressure
mod Examples
use virthub.Common.{
  ℕ, ◌+◌, ◌-◌, Bool, true, false, ◌||◌, List, [], ◌∷◌, if◌then◌else◌, ltb, leb, ◌==◌,
}
use virthub.Common.Word.{add64}
use virthub.Common.Float.{Float}
use virthub.Common.Result.{Result, ok, err}

-- The percentages of the last one, which only its message shows, are left out.
pub data LimitsError : Type 0 where
  memory_limit_exceeded : (requested current limit : ℕ) → LimitsError
  descriptor_limit_exceeded : (current max : ℕ) → LimitsError
  high_watermark_backpressure : LimitsError

-- The messages of `validate`.
pub data ConfigError : Type 0 where
  no_staging_bytes watermarks_not_ordered watermarks_out_of_range no_descriptors : ConfigError

module _ (F : Float) where
  pub record DaemonResourceConfig : Type 0 where
    pub max_staging_bytes : ℕ
    pub high_watermark_pct : F.Carrier
    pub low_watermark_pct : F.Carrier
    pub max_active_descriptors : ℕ

  pub record ResourceLimiter : Type 0 where
    pub config : DaemonResourceConfig
    pub used_staging_bytes : ℕ
    pub active_descriptors : ℕ
    pub backpressure_active : Bool

  unfoldable pub validate : DaemonResourceConfig → Result ConfigError (Unit {0})
  validate c =
      if c.max_staging_bytes == 0
      then err no_staging_bytes
      else if F.ge c.low_watermark_pct c.high_watermark_pct
      then err watermarks_not_ordered
      else if F.lt (F.literal 100) c.high_watermark_pct || F.lt c.low_watermark_pct (F.literal 0)
      then err watermarks_out_of_range
      else if c.max_active_descriptors == 0
      then err no_descriptors
      else ok tt

  unfoldable pub new : DaemonResourceConfig → Result ConfigError ResourceLimiter
  unfolding validate
  new c = elim (validate c) [
    | err e ↦ err e
    | ok _ ↦ ok (record {
      config = c;
      used_staging_bytes = 0;
      active_descriptors = 0;
      backpressure_active = false;
    })
  ]

  -- `limit as f64` is 0.0 for the limit 0 only.
  unfoldable pub memory_usage_ratio : ResourceLimiter → F.Carrier
  memory_usage_ratio l =
      if l.config.max_staging_bytes == 0
      then F.literal 0
      else F.div (F.from_usize l.used_staging_bytes) (F.from_usize l.config.max_staging_bytes)

  -- `update_backpressure`
  unfoldable pub update_backpressure : ResourceLimiter → ResourceLimiter
  unfolding memory_usage_ratio
  update_backpressure l = record l {
    backpressure_active =
        if l.backpressure_active
        then F.ge (memory_usage_ratio l) l.config.low_watermark_pct
        else F.ge (memory_usage_ratio l) l.config.high_watermark_pct;
  }

  unfoldable pub check_backpressure : ResourceLimiter → Result LimitsError (Unit {0})
  unfolding memory_usage_ratio
  check_backpressure l =
      if F.ge (memory_usage_ratio l) l.config.high_watermark_pct
      then err high_watermark_backpressure
      else ok tt

  -- The loop of `reserve_memory`. The sum is a usize and wraps in a release build.
  unfoldable pub try_reserve : ResourceLimiter → ℕ → ResourceLimiter × Result LimitsError (Unit {0})
  try_reserve l bytes =
      if ltb l.config.max_staging_bytes (add64 l.used_staging_bytes bytes)
      then (l, err (memory_limit_exceeded bytes l.used_staging_bytes l.config.max_staging_bytes))
      else (record l { used_staging_bytes = add64 l.used_staging_bytes bytes }, ok tt)

  unfoldable pub reserve_memory :
      ResourceLimiter → ℕ → ResourceLimiter × Result LimitsError (Unit {0})
  unfolding try_reserve update_backpressure
  reserve_memory l bytes = elim ((try_reserve l bytes).1) [
    | err e ↦ ((try_reserve l bytes).0, err e)
    | ok _ ↦ (update_backpressure (try_reserve l bytes).0, ok tt)
  ]

  -- The loop of `release_memory`; `saturating_sub` is the subtraction that stops at 0.
  unfoldable pub give_back : ResourceLimiter → ℕ → ResourceLimiter
  give_back l bytes = record l { used_staging_bytes = l.used_staging_bytes - bytes }

  unfoldable pub release_memory : ResourceLimiter → ℕ → ResourceLimiter
  unfolding give_back update_backpressure
  release_memory l bytes = update_backpressure (give_back l bytes)

  unfoldable pub register_descriptor :
      ResourceLimiter → ResourceLimiter × Result LimitsError (Unit {0})
  register_descriptor l =
      if leb l.config.max_active_descriptors l.active_descriptors
      then (l, err (descriptor_limit_exceeded l.active_descriptors l.config.max_active_descriptors))
      else (record l { active_descriptors = l.active_descriptors + 1 }, ok tt)

  unfoldable pub unregister_descriptor : ResourceLimiter → ResourceLimiter
  unregister_descriptor l = record l { active_descriptors = l.active_descriptors - 1 }

-- The steps of all threads, in the order in which they take effect.
pub data Step : Type 0 where
  reserves releases : ℕ → Step
  registers unregisters refreshes : Step

module _ (F : Float) where
  unfoldable pub step : ResourceLimiter F → Step → ResourceLimiter F
  step l (reserves b) = (try_reserve F l b).0
  step l (releases b) = give_back F l b
  step l registers = (register_descriptor F l).0
  step l unregisters = unregister_descriptor F l
  step l refreshes = update_backpressure F l

  unfoldable pub run : ResourceLimiter F → List Step → ResourceLimiter F
  unfolding step
  run l [] = l
  run l (s ∷ ss) = run (step l s) ss
