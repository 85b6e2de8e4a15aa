-- ===== src/Stride/Streams.antt =====
-- The processes' accesses side by side in the detector of src/klnk/klnk-ebpf/src/lib.rs.
use virthub.Common.{
  ℕ, ◌≡◌, refl, sym, ap, ◌∙◌, Bool, true, false, List, [], ◌∷◌, if◌then◌else◌, ◌==◌, nat_eq, arith,
  Bool-cases, inl, inr,
}
use virthub.Stride.{
  AccessEvent, StrideState, StrideDetector, state_of, decayed, observe, process_event, clear_pid,
  clear_all,
}

-- The calls of a detector, an access with the clock's reading.
pub data Call : Type 0 where
  access : ℕ → AccessEvent → Call
  clears : ℕ → Call
  clears_all : Call

unfoldable pub call : StrideDetector → Call → StrideDetector
call d (access now event) = (process_event d now event).0
call d (clears pid) = clear_pid d pid
call d clears_all = clear_all d

unfoldable pub run : StrideDetector → List Call → StrideDetector
unfolding call
run d [] = d
run d (c ∷ cs) = run (call d c) cs

-- Whether a call concerns a process.
abbrev pub concerns : ℕ → Call → Bool
concerns pid (access now event) = event.pid == pid
concerns pid (clears p) = p == pid
concerns pid clears_all = true

abbrev pub only : ℕ → List Call → List Call
only pid [] = []
only pid (c ∷ cs) = if concerns pid c then c ∷ only pid cs else only pid cs

-- The parameters of two detectors and their states of a process are the same.
abbrev AgreeOn : ℕ → StrideDetector → StrideDetector → Type 0
AgreeOn pid d e =
    (d.state pid ≡ e.state pid)
    × (d.decay_interval ≡ e.decay_interval)
    × (d.min_confidence ≡ e.min_confidence)
    × (d.max_prefetch_count ≡ e.max_prefetch_count)

observe_agree :
    (pid : ℕ) (d e : StrideDetector) (now : ℕ) (event : AccessEvent) (s : StrideState)
    → AgreeOn pid d e
    → observe d now event s ≡ observe e now event s
unfolding observe decayed
observe_agree pid d e now event s h = ground (arith, h)

call-AgreeOn :
    (pid : ℕ) (d e : StrideDetector) (c : Call)
    → AgreeOn pid d e
    → AgreeOn pid (call d c) (call e c)
unfolding call process_event clear_pid clear_all
call-AgreeOn pid d e (access now event) h = elim (Bool-cases (event.pid == pid)) [
  | inl same ↦
      let here : event.pid ≡ pid = ground (arith, same) in
      let states : d.state event.pid ≡ e.state event.pid =
        ap d.state here ∙ h.0 ∙ sym (ap e.state here) in
      let agree =
        observe_agree pid d e now event (state_of (e.state event.pid) event.vaddr now) h in
      let before = ap (λ o. observe d now event (state_of o event.vaddr now)) states in
      ground (arith, h, same, ap (λ r. r.0) (before ∙ agree))
  | inr other ↦ ground (arith, other, h)
]
call-AgreeOn pid d e (clears p) h = ground (arith, h)
call-AgreeOn pid d e clears_all h = ground (arith, h)

call_other :
    (pid : ℕ) (d e : StrideDetector) (c : Call)
    → concerns pid c ≡ false
    → AgreeOn pid d e
    → AgreeOn pid (call d c) e
unfolding call process_event clear_pid clear_all
call_other pid d e (access now event) o h = ground (arith, o, h)
call_other pid d e (clears p) o h = ground (arith, o, h)
call_other pid d e clears_all o h = ground (arith, o)

run-AgreeOn :
    (pid : ℕ) (d e : StrideDetector) (cs : List Call)
    → AgreeOn pid d e
    → AgreeOn pid (run d cs) (run e (only pid cs))
unfolding run
run-AgreeOn pid d e [] h = h
run-AgreeOn pid d e (c ∷ cs) h = elim (Bool-cases (concerns pid c)) [
  | inl mine ↦ rw mine (run-AgreeOn pid (call d c) (call e c) cs (call-AgreeOn pid d e c h))
  | inr other ↦ rw other (run-AgreeOn pid (call d c) e cs (call_other pid d e c other h))
]

-- After any calls, what the detector recommends on an access of a process is what it would recommend if only
-- that process had made its calls.
pub process_event_isolated :
    (d : StrideDetector) (cs : List Call) (now : ℕ) (event : AccessEvent)
    → (process_event (run d cs) now event).1
      ≡ (process_event (run d (only event.pid cs)) now event).1
unfolding process_event
process_event_isolated d cs now event =
    let agreed = run-AgreeOn event.pid d d cs (refl, refl, refl, refl) in
    let states = agreed.0 in
    let agree =
      observe_agree event.pid (run d cs) (run d (only event.pid cs)) now event
        (state_of ((run d (only event.pid cs)).state event.pid) event.vaddr now) agreed in
    let before = ap (λ o. observe (run d cs) now event (state_of o event.vaddr now)) states in
    ap (λ r. r.1) (before ∙ agree)
