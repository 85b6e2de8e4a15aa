-- ===== src/Limits/Bounds.antt =====
-- The counters of src/klnk/klnk-daemon/src/limits.rs under every interleaving of the threads' steps.
use virthub.Common.{ℕ, ◌+◌, ◌-◌, ◌≤◌, ◌<◌, ◌≡◌, List, [], ◌∷◌, if◌then◌else◌, leb, arith, refl}
use virthub.Common.Word.{u64_mod}
use virthub.Common.Float.{Float}
use virthub.Common.Result.{ok}
use virthub.Limits.{
  ResourceLimiter, Step, reserves, releases, registers, unregisters, refreshes, step, run,
  try_reserve, give_back, register_descriptor, unregister_descriptor, update_backpressure,
  reserve_memory,
}

-- Both counters are inside their limits.
abbrev pub IsWithin : (F : Float) → ResourceLimiter F → Type 0
IsWithin F l =
    (l.used_staging_bytes ≤ l.config.max_staging_bytes)
    × (l.active_descriptors ≤ l.config.max_active_descriptors)

step-IsWithin :
    (F : Float) (l : ResourceLimiter F) (s : Step) → IsWithin F l → IsWithin F (step F l s)
unfolding step
step-IsWithin F l (reserves b) h = unfold try_reserve in ground arith
step-IsWithin F l (releases b) h = unfold give_back in ground arith
step-IsWithin F l registers h = unfold register_descriptor in ground arith
step-IsWithin F l unregisters h = unfold unregister_descriptor in ground arith
step-IsWithin F l refreshes h = unfold update_backpressure in ground arith

-- From counters inside their limits, however the threads interleave, the bytes and the descriptors
-- in use stay inside their limits.
pub run-IsWithin :
    (F : Float) (l : ResourceLimiter F) (steps : List Step)
    → IsWithin F l
    → IsWithin F (run F l steps)
unfolding run
run-IsWithin F l [] h = h
run-IsWithin F l (s ∷ ss) h = run-IsWithin F (step F l s) ss (step-IsWithin F l s h)

-- The bytes that a sequence of steps is granted and gives back.
abbrev pub granted : (F : Float) → ResourceLimiter F → List Step → ℕ
granted F l [] = 0
granted F l (reserves b ∷ ss) =
    let rest = granted F (step F l (reserves b)) ss in
    if leb (l.used_staging_bytes + b) l.config.max_staging_bytes then b + rest else rest
granted F l (s ∷ ss) = granted F (step F l s) ss

abbrev pub returned : List Step → ℕ
returned [] = 0
returned (releases b ∷ ss) = b + returned ss
returned (s ∷ ss) = returned ss

-- No reservation is so large that the sum wraps, and no thread gives back more than is in use.
abbrev pub IsHonest : (F : Float) → ResourceLimiter F → List Step → Type 0
IsHonest F l [] = Unit
IsHonest F l (reserves b ∷ ss) =
    (l.used_staging_bytes + b < u64_mod) × IsHonest F (step F l (reserves b)) ss
IsHonest F l (releases b ∷ ss) = (b ≤ l.used_staging_bytes) × IsHonest F (step F l (releases b)) ss
IsHonest F l (s ∷ ss) = IsHonest F (step F l s) ss

-- However the threads interleave, the bytes in use are those at the start and those granted since, less
-- those given back, provided that no sum wraps and no thread gives back more than is in use.
pub run_accounts :
    (F : Float) (l : ResourceLimiter F) (steps : List Step)
    → IsHonest F l steps
    → (run F l steps).used_staging_bytes + returned steps ≡ l.used_staging_bytes + granted F l steps
unfolding run step try_reserve give_back register_descriptor unregister_descriptor
    update_backpressure
run_accounts F l [] h = refl
run_accounts F l (reserves b ∷ ss) h =
    let rest = run_accounts F (step F l (reserves b)) ss h.1 in ground (arith, h.0, rest)
run_accounts F l (releases b ∷ ss) h =
    let rest = run_accounts F (step F l (releases b)) ss h.1 in ground (arith, h.0, rest)
run_accounts F l (registers ∷ ss) h =
    let rest = run_accounts F (step F l registers) ss h in ground (arith, rest)
run_accounts F l (unregisters ∷ ss) h =
    let rest = run_accounts F (step F l unregisters) ss h in ground (arith, rest)
run_accounts F l (refreshes ∷ ss) h =
    let rest = run_accounts F (step F l refreshes) ss h in ground (arith, rest)

-- A request of 2^64 - k bytes, for a positive k up to the bytes in use, is granted (with the
-- counters inside their limits, and the limit a u64) and lowers the bytes in use by k.
pub reserve_memory_wraps :
    (F : Float) (l : ResourceLimiter F) (k : ℕ)
    → IsWithin F l
    → l.config.max_staging_bytes < u64_mod
    → 0 < k
    → k ≤ l.used_staging_bytes
    → let (l', result) = reserve_memory F l (u64_mod - k) in
      (result ≡ ok tt) × (l'.used_staging_bytes + k ≡ l.used_staging_bytes)
unfolding reserve_memory
reserve_memory_wraps F l k h m p q = unfold try_reserve update_backpressure in ground arith
