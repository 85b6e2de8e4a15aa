-- ===== src/Stride/Steady.antt =====
-- A constant stride through the detector of src/klnk/klnk-ebpf/src/lib.rs.
use virthub.Common.{
  ℕ, zero, suc, ◌+◌, ◌-◌, ◌*◌, ◌≤◌, ◌<◌, ◌≡◌, ap, ◌∙◌, false, Option, none, some, List, [], ◌∷◌,
  length, if◌then◌else◌, leb, min, nat_eq, arith,
}
use virthub.Common.Map
use virthub.Common.Word.{add64, sub64, mul64, u64_mod}
use virthub.Stride.{
  AccessEvent, PrefetchRecommendation, StrideState, StrideDetector, new_state, decayed, observe,
  process_event,
}

abbrev pub access_at : ℕ → ℕ → AccessEvent
access_at pid v = record { timestamp_ns = 0; pid = pid; vaddr = v; is_write = false }

-- Accesses of one process at addresses a stride apart, at the given times; the last recommendation is kept.
unfoldable pub feed :
    StrideDetector
    → (pid v stride : ℕ) → Option PrefetchRecommendation
    → List ℕ
    → StrideDetector × Option PrefetchRecommendation
feed d pid v stride r [] = (d, r)
feed d pid v stride r (t ∷ ts) =
    let (d', r') = process_event d t (access_at pid v) in feed d' pid (add64 v stride) stride r' ts

-- No idle time between the accesses is longer than the decay interval.
abbrev pub Timely : ℕ → ℕ → List ℕ → Type 0
Timely interval t [] = Unit
Timely interval t (u ∷ us) = (u - t ≤ interval) × Timely interval u us

-- The address `n` strides on.
abbrev pub steps_on : ℕ → ℕ → ℕ → ℕ
steps_on zero v stride = v
steps_on (suc n) v stride = steps_on n (add64 v stride) stride

-- What a detector recommends at a confidence for the address that comes next.
abbrev pub expected :
    StrideDetector → (pid stride confidence next : ℕ) → Option PrefetchRecommendation
expected d pid stride confidence next =
    if leb d.min_confidence confidence
    then some record {
      pid = pid;
      base_vaddr = next;
      stride_bytes = stride;
      count = min (2 * confidence) d.max_prefetch_count;
    }
    else none

abbrev pub state_at : (v stride confidence t : ℕ) → StrideState
state_at v stride confidence t = record {
  last_vaddr = v;
  last_stride = stride;
  confidence = confidence;
  last_access_time = t;
}

steady_step :
    (d : StrideDetector) (pid v stride k t u : ℕ)
    → d.state pid ≡ some (state_at v stride k t)
    → v < u64_mod
    → 0 < stride
    → stride < u64_mod
    → 2 * (k + 1) < u64_mod
    → u - t ≤ d.decay_interval
    → let next = add64 v stride in
      process_event d u (access_at pid next) ≡ (
        record d { state = Map.insert d.state pid (state_at next stride (k + 1) u) },
        expected d pid stride (k + 1) (add64 next stride),
      )
unfolding process_event observe decayed
steady_step d pid v stride k t u h sv s0 s1 small timely =
    let next = add64 v stride in
    let back : sub64 next v ≡ stride = omega (arith, sv, s1) in
    let twice : mul64 (k + 1) 2 ≡ 2 * (k + 1) = omega (arith, small) in
    let more : add64 k 1 ≡ k + 1 = omega (arith, small) in
    ground (arith, h, back, twice, more, s0, timely)

feed_steady :
    (d : StrideDetector) (pid v stride k t : ℕ) (us : List ℕ)
    → d.state pid ≡ some (state_at v stride k t)
    → v < u64_mod
    → 0 < stride
    → stride < u64_mod
    → 2 * (k + length us) < u64_mod
    → Timely d.decay_interval t us
    → let next = add64 v stride in
      (feed d pid next stride (expected d pid stride k next) us).1
      ≡ expected d pid stride (k + length us) (steps_on (length us) next stride)
unfolding feed
feed_steady d pid v stride k t [] h sv s0 s1 small timely = ground arith
feed_steady d pid v stride k t (u ∷ us) h sv s0 s1 small timely =
    let next = add64 v stride in
    let step = steady_step d pid v stride k t u h sv s0 s1 (omega (arith, small)) timely.0 in
    let d' : StrideDetector = record d {
      state = Map.insert d.state pid (state_at next stride (k + 1) u);
    } in
    let rest =
      feed_steady d' pid next stride (k + 1) u us (ground arith) (omega arith) s0 s1
        (omega (arith, small)) timely.1 in
    let first : feed d pid next stride (expected d pid stride k next) (u ∷ us)
        ≡ feed d' pid (add64 next stride) stride (expected d pid stride (k + 1) (add64 next stride))
            us =
      ap (λ r. feed r.0 pid (add64 next stride) stride r.1 us) step in
    ap (λ r. r.1) first
    ∙ rest
    ∙ ap (λ n. expected d pid stride n (steps_on (length us) (add64 next stride) stride))
        (omega arith)

-- Two accesses of a process without a history leave the stride between them at confidence one.
fresh_pair :
    (d : StrideDetector) (pid v stride t u : ℕ)
    → d.state pid ≡ none
    → v < u64_mod
    → 0 < stride
    → stride < u64_mod
    → let next = add64 v stride in
      let d1 = (process_event d t (access_at pid v)).0 in
      process_event d1 u (access_at pid next) ≡ (
        record d {
          state =
              Map.insert (Map.insert d.state pid (new_state v t)) pid (state_at next stride 1 u);
        },
        expected d pid stride 1 (add64 next stride),
      )
unfolding process_event observe decayed
fresh_pair d pid v stride t u h sv s0 s1 =
    let next = add64 v stride in
    let still : sub64 v v ≡ 0 = omega (arith, sv) in
    let back : sub64 next v ≡ stride = omega (arith, sv, s1) in ground (arith, h, still, back, s0)

-- A process without a history that makes accesses a constant stride apart, none of them after an idle time
-- beyond the decay interval, gets from the access on that completes `min_confidence` strides a recommendation of
-- the next address, with that stride and twice as many pages as strides were seen, up to the maximum; and
-- none before.
pub feed_recommends :
    (d : StrideDetector) (pid v stride t u : ℕ) (us : List ℕ)
    → d.state pid ≡ none
    → v < u64_mod
    → 0 < stride
    → stride < u64_mod
    → 2 * (1 + length us) < u64_mod
    → Timely d.decay_interval u us
    → (feed d pid v stride none (t ∷ u ∷ us)).1
      ≡ expected d pid stride (1 + length us) (steps_on (suc (suc (length us))) v stride)
unfolding feed
feed_recommends d pid v stride t u us h sv s0 s1 small timely =
    let next = add64 v stride in
    let pair = fresh_pair d pid v stride t u h sv s0 s1 in
    let d2 : StrideDetector = record d {
      state = Map.insert (Map.insert d.state pid (new_state v t)) pid (state_at next stride 1 u);
    } in
    let rest =
      feed_steady d2 pid next stride 1 u us (ground arith) (omega arith) s0 s1 small timely in
    ap (λ r. (feed r.0 pid (add64 next stride) stride r.1 us).1) pair ∙ rest

-- An idle time of any length beyond the decay interval does not stop a recommendation: where the confidence was
-- positive and enough before it, the next access at the same stride is answered with that same confidence.
pub process_event_idle :
    (d : StrideDetector) (pid v stride k t now : ℕ)
    → d.state pid ≡ some (state_at v stride k t)
    → v < u64_mod
    → 0 < stride
    → stride < u64_mod
    → 0 < k
    → d.min_confidence ≤ k
    → 2 * k < u64_mod
    → d.decay_interval < now - t
    → let next = add64 v stride in
      (process_event d now (access_at pid next)).1
      ≡ some record {
        pid = pid;
        base_vaddr = add64 next stride;
        stride_bytes = stride;
        count = min (2 * k) d.max_prefetch_count;
      }
unfolding process_event observe decayed
process_event_idle d pid v stride k t now h sv s0 s1 k0 enough small idle =
    let next = add64 v stride in
    let back : sub64 next v ≡ stride = omega (arith, sv, s1) in
    let twice : mul64 k 2 ≡ 2 * k = omega (arith, small) in
    let same : add64 (k - 1) 1 ≡ k = omega (arith, small, k0) in
    ground (arith, h, back, twice, same, s0, idle, enough)
