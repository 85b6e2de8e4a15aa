-- ===== src/RqRefill/Depth.antt =====
-- The depth of the receive queue of src/klnk/librmashim/src/rq_refill.rs over sequences of calls.
use virthub.Common.{
  ℕ, zero, suc, ◌+◌, ◌*◌, ◌≤◌, ◌<◌, ◌≡◌, refl, ap, true, List, [], ◌∷◌, length, min, arith,
}
use virthub.Common.Word.{u64_mod}
use virthub.Common.Result.{ok}
use virthub.RqRefill.{
  ReceiveBufferSlot, RqConfig, RqRefillManager, new, needs_refill, refill_deficit,
  post_refill_batch, current_depth, store_completed, on_work_completion,
}

-- The queue is no deeper than its capacity, a usize.
abbrev pub IsDepth : RqRefillManager → Type 0
IsDepth m = (m.outstanding_depth ≤ m.config.capacity) × (m.config.capacity < u64_mod)

pub data Call : Type 0 where
  posts : List ReceiveBufferSlot → Call
  completes : ℕ → Call

unfoldable pub step : RqRefillManager → Call → RqRefillManager
step m (posts bs) = (post_refill_batch m bs).0
step m (completes n) = on_work_completion m n

unfoldable pub run : RqRefillManager → List Call → RqRefillManager
unfolding step
run m [] = m
run m (c ∷ cs) = run (step m c) cs

-- Each posted batch is no larger than the deficit that the manager reports before it.
abbrev pub IsFitting : RqRefillManager → List Call → Type 0
IsFitting m [] = Unit {0}
IsFitting m (posts bs ∷ cs) = (length bs ≤ refill_deficit m) × IsFitting (step m (posts bs)) cs
IsFitting m (completes n ∷ cs) = IsFitting (step m (completes n)) cs

post_refill_batch-IsDepth :
    (m : RqRefillManager) (bs : List ReceiveBufferSlot)
    → IsDepth m
    → length bs ≤ refill_deficit m
    → IsDepth (post_refill_batch m bs).0
unfolding post_refill_batch refill_deficit
post_refill_batch-IsDepth m [] h f = h
post_refill_batch-IsDepth m (b ∷ bs) h f = ground (arith, h, f)

-- As long as no batch is larger than the reported deficit, the depth stays within the capacity, whatever
-- completions come in between.
pub run-IsDepth :
    (m : RqRefillManager) (cs : List Call) → IsDepth m → IsFitting m cs → IsDepth (run m cs)
unfolding run step
run-IsDepth m [] h f = h
run-IsDepth m (posts bs ∷ cs) h f =
    run-IsDepth (step m (posts bs)) cs (post_refill_batch-IsDepth m bs h f.0) f.1
run-IsDepth m (completes n ∷ cs) h f =
    run-IsDepth (step m (completes n)) cs
      (unfold on_work_completion store_completed current_depth in (omega (arith, h.0), h.1)) f

abbrev repeat : ℕ → ReceiveBufferSlot → List ReceiveBufferSlot
repeat zero b = []
repeat (suc n) b = b ∷ repeat n b

length-repeat : (n : ℕ) (b : ReceiveBufferSlot) → length (repeat n b) ≡ n
length-repeat zero b = refl
length-repeat (suc n) b = ground (arith, length-repeat n b)

-- Rounds that each post as many buffers as the manager reports to be missing.
unfoldable pub refill : ℕ → RqRefillManager → ReceiveBufferSlot → RqRefillManager
refill zero m b = m
refill (suc k) m b = refill k (post_refill_batch m (repeat (refill_deficit m) b)).0 b

post_refill_batch-depth :
    (m : RqRefillManager) (bs : List ReceiveBufferSlot)
    → IsDepth m
    → length bs ≡ refill_deficit m
    → let m' = (post_refill_batch m bs).0 in
      (m'.outstanding_depth ≡ min m.config.capacity (m.outstanding_depth + m.config.batch_size))
      × (m'.config ≡ m.config)
unfolding post_refill_batch refill_deficit
post_refill_batch-depth m [] h e = ground (arith, h, e)
post_refill_batch-depth m (b ∷ bs) h e = ground (arith, h, e)

-- `k` such rounds add `k` batches, up to the capacity and never beyond it.
pub refill_depth :
    (k : ℕ) (m : RqRefillManager) (b : ReceiveBufferSlot)
    → IsDepth m
    → (refill k m b).outstanding_depth
      ≡ min m.config.capacity (m.outstanding_depth + k * m.config.batch_size)
unfolding refill
refill_depth zero m b h = ground (arith, h)
refill_depth (suc k) m b h =
    let bs = repeat (refill_deficit m) b in
    let m' = (post_refill_batch m bs).0 in
    let (depth, same) = post_refill_batch-depth m bs h (length-repeat (refill_deficit m) b) in
    let capacity : m'.config.capacity ≡ m.config.capacity = ap (λ c. c.capacity) same in
    let batch : m'.config.batch_size ≡ m.config.batch_size = ap (λ c. c.batch_size) same in
    let rest = refill_depth k m' b (omega (arith, depth, capacity), omega (arith, capacity, h.1)) in
    ground (arith, rest, depth, capacity, batch)

le-mul : (k b : ℕ) → 0 < b → k ≤ k * b
le-mul zero b h = omega arith
le-mul (suc k) b h = ground (arith, le-mul k b h)

-- A manager that `new` accepts starts in need of a refill when its watermark is positive, and with a positive
-- batch size as many rounds as the capacity has slots fill its queue.
pub refill-new :
    (config : RqConfig) (m : RqRefillManager) (b : ReceiveBufferSlot)
    → config.capacity < u64_mod
    → 0 < config.low_watermark
    → 0 < config.batch_size
    → new config ≡ ok m
    → (needs_refill m ≡ true) × (current_depth (refill config.capacity m b) ≡ config.capacity)
unfolding new needs_refill current_depth
refill-new config m b small mark batch e =
    let config_eq : m.config ≡ config = ground (arith, e) in
    let depth_eq : m.outstanding_depth ≡ 0 = ground (arith, e) in
    let capacity : m.config.capacity ≡ config.capacity = ap (λ c. c.capacity) config_eq in
    let size : m.config.batch_size ≡ config.batch_size = ap (λ c. c.batch_size) config_eq in
    let start : IsDepth m = (omega (arith, depth_eq), omega (arith, capacity, small)) in
    let full = refill_depth config.capacity m b start in
    let enough = le-mul config.capacity config.batch_size batch in
    (
      ground (arith, config_eq, depth_eq, mark),
      ground (arith, full, depth_eq, capacity, size, enough),
    )

-- A completion that has loaded the depth stores it after a batch was posted in between: the batch is
-- lost from the depth, however large it was.
pub completion_loses_batch :
    (m : RqRefillManager) (bs : List ReceiveBufferSlot) (n : ℕ)
    → store_completed (post_refill_batch m bs).0 (current_depth m) n ≡ on_work_completion m n
unfolding store_completed post_refill_batch on_work_completion
completion_loses_batch m [] n = ground arith
completion_loses_batch m (b ∷ bs) n = ground arith
