-- ===== src/Stride/Examples.antt =====
-- The detector of src/klnk/klnk-ebpf/src/lib.rs with its default parameters.
use virthub.Common.{◌≡◌, refl, some, none, [], ◌∷◌, nat_eq, arith}
use virthub.Common.Map
use virthub.Stride.{StrideDetector, new, process_event}
use virthub.Stride.Steady.{
  access_at, state_at, feed, expected, steps_on, feed_recommends, process_event_idle,
}

-- Downwards, by a stride of -4096.
feed_recommends_example :
    (feed new 7 0x9000 0xfffffffffffff000 none (10 ∷ 20 ∷ 30 ∷ 40 ∷ [])).1
    ≡ expected new 7 0xfffffffffffff000 3 (steps_on 4 0x9000 0xfffffffffffff000)
unfolding new
feed_recommends_example =
    feed_recommends new 7 0x9000 0xfffffffffffff000 10 20 (30 ∷ 40 ∷ []) refl (omega arith)
      (omega arith) (omega arith) (omega arith) (omega arith)

abbrev idle_detector : StrideDetector
idle_detector = record {
  state = Map.insert Map.empty 7 (state_at 0x2000 4096 2 10);
  decay_interval = 100;
  min_confidence = 2;
  max_prefetch_count = 16;
}

process_event_idle_example :
    (process_event idle_detector 1000000 (access_at 7 0x3000)).1
    ≡ some record { pid = 7; base_vaddr = 0x4000; stride_bytes = 4096; count = 4 }
process_event_idle_example =
    process_event_idle idle_detector 7 0x2000 4096 2 10 1000000 refl (omega arith) (omega arith)
      (omega arith) (omega arith) (omega arith) (omega arith) (omega arith)
