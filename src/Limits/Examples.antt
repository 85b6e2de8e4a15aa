-- ===== src/Limits/Examples.antt =====
-- The limiter of src/klnk/klnk-daemon/src/limits.rs on one configuration.
use virthub.Common.{false, List, [], ◌∷◌, arith}
use virthub.Common.Float.{hundredths}
use virthub.Limits.{
  ResourceLimiter, Step, reserves, releases, registers, unregisters, refreshes, run, step,
  try_reserve, give_back, register_descriptor, update_backpressure,
}
use virthub.Limits.Bounds.{IsWithin, run-IsWithin, IsHonest}

abbrev limiter : ResourceLimiter hundredths
limiter = record {
  config = record {
    max_staging_bytes = 100;
    high_watermark_pct = 80;
    low_watermark_pct = 50;
    max_active_descriptors = 2;
  };
  used_staging_bytes = 40;
  active_descriptors = 1;
  backpressure_active = false;
}

abbrev steps : List Step
steps = reserves 50 ∷ refreshes ∷ registers ∷ reserves 30 ∷ releases 60 ∷ unregisters ∷ []

limiter-IsWithin : IsWithin hundredths limiter
limiter-IsWithin = (omega arith, omega arith)

run-IsWithin_example : IsWithin hundredths (run hundredths limiter steps)
run-IsWithin_example = run-IsWithin hundredths limiter steps limiter-IsWithin

steps-IsHonest : IsHonest hundredths limiter steps
unfolding step try_reserve give_back register_descriptor update_backpressure
steps-IsHonest = (omega arith, (omega arith, (omega arith, tt)))
