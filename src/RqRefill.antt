-- ===== src/RqRefill.antt =====
-- src/klnk/librmashim/src/rq_refill.rs: the depth of a receive queue and its refills. The completion of work
-- requests loads the depth and stores a new one in two steps; every other method accesses it once.
pub mod Depth
mod Examples
use virthub.Common.{ℕ, ◌-◌, Bool, ◌||◌, List, [], ◌∷◌, if◌then◌else◌, ltb, leb, ◌==◌, length, min}
use virthub.Common.Word.{add64}
use virthub.Common.Result.{Result, ok, err}

pub data RqRefillError : Type 0 where
  invalid_config : (capacity watermark : ℕ) → RqRefillError

pub record ReceiveBufferSlot : Type 0 where
  pub slot_id : ℕ
  pub buf_vaddr : ℕ
  pub buf_len : ℕ
  pub lkey : ℕ

pub record RqConfig : Type 0 where
  pub capacity : ℕ
  pub low_watermark : ℕ
  pub batch_size : ℕ

pub record RqRefillManager : Type 0 where
  pub config : RqConfig
  pub outstanding_depth : ℕ

unfoldable pub new : RqConfig → Result RqRefillError RqRefillManager
new config =
    if leb config.capacity config.low_watermark || config.capacity == 0
    then err (invalid_config config.capacity config.low_watermark)
    else ok (record { config = config; outstanding_depth = 0 })

unfoldable pub needs_refill : RqRefillManager → Bool
needs_refill m = ltb m.outstanding_depth m.config.low_watermark

unfoldable pub refill_deficit : RqRefillManager → ℕ
refill_deficit m =
    if ltb m.outstanding_depth m.config.capacity
    then min (m.config.capacity - m.outstanding_depth) m.config.batch_size
    else 0

unfoldable pub post_refill_batch :
    RqRefillManager → List ReceiveBufferSlot → RqRefillManager × Result RqRefillError ℕ
post_refill_batch m [] = (m, ok 0)
post_refill_batch m (b ∷ bs) =
    let batch_len = min (length (b ∷ bs)) m.config.batch_size in
    (record m { outstanding_depth = add64 m.outstanding_depth batch_len }, ok batch_len)

unfoldable pub current_depth : RqRefillManager → ℕ
current_depth m = m.outstanding_depth

-- The second step of `on_work_completion`, with the depth that the first one has loaded.
unfoldable pub store_completed : RqRefillManager → (current count : ℕ) → RqRefillManager
store_completed m current count = record m { outstanding_depth = current - count }

unfoldable pub on_work_completion : RqRefillManager → ℕ → RqRefillManager
unfolding store_completed current_depth
on_work_completion m count = store_completed m (current_depth m) count
