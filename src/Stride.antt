-- ===== src/Stride.antt =====
-- The stride detector of src/klnk/klnk-ebpf/src/lib.rs. An i64 is its bit pattern as a u64; the clock's reading
-- is passed in, in the unit of the decay interval. The mutex makes a call one step.
pub mod Streams
pub mod Steady
mod Examples
use virthub.Common.{
  ℕ, ◌+◌, ◌-◌, Bool, true, false, Option, none, some, if◌then◌else◌, ltb, leb, ◌==◌, min, nat_eq,
}
use virthub.Common.Map
use virthub.Common.Map.{Map}
use virthub.Common.Word.{add64, sub64, mul64}

pub record AccessEvent : Type 0 where
  pub timestamp_ns : ℕ
  pub pid : ℕ
  pub vaddr : ℕ
  pub is_write : Bool

pub record PrefetchRecommendation : Type 0 where
  pub pid : ℕ
  pub base_vaddr : ℕ
  pub stride_bytes : ℕ
  pub count : ℕ

pub record StrideState : Type 0 where
  pub last_vaddr : ℕ
  pub last_stride : ℕ
  pub confidence : ℕ
  pub last_access_time : ℕ

abbrev pub new_state : (vaddr now : ℕ) → StrideState
new_state vaddr now = record {
  last_vaddr = vaddr;
  last_stride = 0;
  confidence = 0;
  last_access_time = now;
}

pub record StrideDetector : Type 0 where
  pub state : Map ℕ StrideState
  pub decay_interval : ℕ
  pub min_confidence : ℕ
  pub max_prefetch_count : ℕ

-- The default interval is 100 milliseconds, in nanoseconds.
unfoldable pub new : StrideDetector
new = record {
  state = Map.empty;
  decay_interval = 100000000;
  min_confidence = 2;
  max_prefetch_count = 16;
}

unfoldable pub with_params : (decay_interval min_confidence max_prefetch_count : ℕ) → StrideDetector
with_params decay_interval min_confidence max_prefetch_count = record {
  state = Map.empty;
  decay_interval = decay_interval;
  min_confidence = min_confidence;
  max_prefetch_count = max_prefetch_count;
}

-- `entry(pid).or_insert_with(..)`
abbrev pub state_of : Option StrideState → (vaddr now : ℕ) → StrideState
state_of none vaddr now = new_state vaddr now
state_of (some s) vaddr now = s

-- The decay after an idle time; `duration_since` is zero for an earlier time.
unfoldable pub decayed : (decay_interval now : ℕ) → StrideState → StrideState
decayed decay_interval now s = record s {
  confidence =
      if ltb decay_interval (now - s.last_access_time) then s.confidence - 1 else s.confidence;
  last_access_time = now;
}

-- The rest of `process_event` on the state of the event's process.
unfoldable pub observe :
    StrideDetector
    → (now : ℕ) → AccessEvent
    → StrideState
    → StrideState × Option PrefetchRecommendation
unfolding decayed
observe d now event before =
    let s = decayed d.decay_interval now before in
    let stride = sub64 event.vaddr s.last_vaddr in
    let confidence = if stride == s.last_stride then add64 s.confidence 1 else 1 in
    let s' : StrideState = record s {
      last_vaddr = event.vaddr;
      last_stride = stride;
      confidence = confidence;
    } in
    if stride == 0 then (s, none) else (
      s',
      if leb d.min_confidence confidence
          then some record {
            pid = event.pid;
            base_vaddr = add64 event.vaddr stride;
            stride_bytes = stride;
            count = min (mul64 confidence 2) d.max_prefetch_count;
          }
          else none,
    )

unfoldable pub process_event :
    StrideDetector → (now : ℕ) → AccessEvent → StrideDetector × Option PrefetchRecommendation
unfolding observe
process_event d now event =
    let (s, r) = observe d now event (state_of (d.state event.pid) event.vaddr now) in
    (record d { state = Map.insert d.state event.pid s }, r)

unfoldable pub clear_pid : StrideDetector → ℕ → StrideDetector
clear_pid d pid = record d { state = Map.remove d.state pid }

unfoldable pub clear_all : StrideDetector → StrideDetector
clear_all d = record d { state = Map.empty }
