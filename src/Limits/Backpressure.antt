-- ===== src/Limits/Backpressure.antt =====
-- The hysteresis of the backpressure flag of src/klnk/klnk-daemon/src/limits.rs.
use virthub.Common.{◌≡◌, true, false, arith, if◌then◌else◌}
use virthub.Common.Float.{Float}
use virthub.Common.Result.{ok}
use virthub.Limits.{ResourceLimiter, memory_usage_ratio, update_backpressure, check_backpressure}

-- If usage at the high watermark is also at the low one, an update sets the flag at or above the
-- high one, clears it below the low one, and keeps it in between; a second update changes nothing.
pub update_backpressure_lem :
    (F : Float) (l : ResourceLimiter F)
    → (F.ge (memory_usage_ratio F l) l.config.high_watermark_pct ≡ true
        → F.ge (memory_usage_ratio F l) l.config.low_watermark_pct ≡ true)
    → let usage = memory_usage_ratio F l in
      let l' = update_backpressure F l in
      (l'.backpressure_active ≡ (
        if F.ge usage l.config.high_watermark_pct
        then true
        else if F.ge usage l.config.low_watermark_pct
        then l.backpressure_active
        else false))
      × (update_backpressure F l' ≡ l')
unfolding update_backpressure memory_usage_ratio
update_backpressure_lem F l h = ground (arith, h)

-- Between the watermarks an active flag stays active while `check_backpressure` reports no
-- backpressure.
pub check_backpressure_ignores_flag :
    (F : Float) (l : ResourceLimiter F)
    → l.backpressure_active ≡ true
    → F.ge (memory_usage_ratio F l) l.config.low_watermark_pct ≡ true
    → F.ge (memory_usage_ratio F l) l.config.high_watermark_pct ≡ false
    → let l' = update_backpressure F l in
      (l'.backpressure_active ≡ true) × (check_backpressure F l' ≡ ok tt)
unfolding update_backpressure memory_usage_ratio check_backpressure
check_backpressure_ignores_flag F l a h k = ground (arith, a, h, k)
