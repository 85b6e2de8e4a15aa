-- ===== src/RqRefill/Examples.antt =====
-- The receive queue of src/klnk/librmashim/src/rq_refill.rs with the numbers of the source's own test.
use virthub.Common.{ℕ, zero, suc, ◌*◌, ◌+◌, ◌≡◌, refl, true, false, List, [], ◌∷◌}
use virthub.Common.Result.{ok, err}
use virthub.RqRefill.{
  ReceiveBufferSlot, RqConfig, RqRefillManager, invalid_config, new, needs_refill, refill_deficit,
  post_refill_batch, on_work_completion,
}

abbrev config : RqConfig
config = record { capacity = 100; low_watermark = 30; batch_size = 32 }

abbrev manager : ℕ → RqRefillManager
manager depth = record { config = config; outstanding_depth = depth }

abbrev buffers : ℕ → List ReceiveBufferSlot
buffers zero = []
buffers (suc i) =
    record { slot_id = i; buf_vaddr = 0x1000 + i * 4096; buf_len = 4096; lkey = 0x1234 } ∷ buffers i

made : new config ≡ ok (manager 0)
unfolding new
made = refl

rejected :
    new (record { capacity = 50; low_watermark = 50; batch_size = 10 }) ≡ err (invalid_config 50 50)
unfolding new
rejected = refl

empty : (needs_refill (manager 0) ≡ true) × (refill_deficit (manager 0) ≡ 32)
unfolding needs_refill refill_deficit
empty = (refl, refl)

posted : post_refill_batch (manager 0) (buffers 32) ≡ (manager 32, ok 32)
unfolding post_refill_batch
posted = refl

completed :
    (needs_refill (manager 32) ≡ false)
    × (on_work_completion (manager 32) 5 ≡ manager 27)
    × (needs_refill (manager 27) ≡ true)
unfolding needs_refill on_work_completion
completed = (refl, refl, refl)
