-- ===== src/Raft/Terms.antt =====
-- The term of a node of src/master/src/raft_state.rs over its calls.
use virthub.Common.{ℕ, ◌+◌, ◌<◌, ◌≤◌, ◌≡◌, List, [], ◌∷◌, arith}
use virthub.Common.Word.{u64_mod}
use virthub.Raft.{
  RaftEngine, RaftLogEntry, Call, set_callback, promote, elect, propose_entry_command,
  propose_acquire, propose_release, request_vote, append_entries, commit, step, run, propose,
  propose_command, propose_lock_acquire, propose_lock_release, handle_request_vote,
  handle_append_entries, commit_to_index, start_election, promote_to_leader, set_commit_callback,
  current_term,
}

-- The lock-free copy of the term agrees with the state.
abbrev pub IsSynced : RaftEngine → Type 0
IsSynced e = e.term_counter ≡ e.state.current_term

propose_term :
    (e : RaftEngine) (x : RaftLogEntry)
    → ((propose e x).0.term_counter ≡ e.term_counter)
      × ((propose e x).0.state.current_term ≡ e.state.current_term)
unfolding propose
propose_term e x = ground arith

vote_term :
    (e : RaftEngine) (c t i lt : ℕ)
    → IsSynced e
    → IsSynced (handle_request_vote e c t i lt).0
      × (e.state.current_term ≤ (handle_request_vote e c t i lt).0.state.current_term)
unfolding handle_request_vote
vote_term e c t i lt h = ground arith

append_term :
    (e : RaftEngine) (l t pi pt : ℕ) (xs : List RaftLogEntry) (lc : ℕ)
    → IsSynced e
    → IsSynced (handle_append_entries e l t pi pt xs lc).0
      × (e.state.current_term ≤ (handle_append_entries e l t pi pt xs lc).0.state.current_term)
unfolding handle_append_entries
append_term e l t pi pt xs lc h = ground arith

-- Only an election can overflow the term.
abbrev pub Fits : RaftEngine → Call → Type 0
Fits e elect = e.state.current_term + 1 < u64_mod
Fits e _ = Unit {0}

-- Every call keeps the lock-free copy equal to the term of the state, and none lowers the term while
-- an election does not overflow it.
pub step_term :
    (e : RaftEngine) (c : Call)
    → IsSynced e
    → Fits e c
    → IsSynced (step e c) × (e.state.current_term ≤ (step e c).state.current_term)
unfolding step
step_term e set_callback h f = unfold set_commit_callback in ground arith
step_term e promote h f = unfold promote_to_leader in ground arith
step_term e elect h f = unfold start_election in ground arith
step_term e (propose_entry_command p) h f = unfold propose_command in ground arith
step_term e (propose_acquire r c) h f = unfold propose_lock_acquire in ground arith
step_term e (propose_release r c) h f = unfold propose_lock_release in ground arith
step_term e (request_vote c t i lt) h f = vote_term e c t i lt h
step_term e (append_entries l t pi pt xs lc) h f = append_term e l t pi pt xs lc h
step_term e (commit k) h f = unfold commit_to_index in ground arith

-- No election of the history overflows the term.
abbrev pub FitsAll : RaftEngine → List Call → Type 0
FitsAll e [] = Unit {0}
FitsAll e (c ∷ cs) = Fits e c × FitsAll (step e c) cs

-- So from a node whose copy agrees, over any history without such an overflow the term never falls
-- and its lock-free copy, which `current_term` returns, is the term of the state at the end.
pub run_term :
    (e : RaftEngine) (cs : List Call)
    → IsSynced e
    → FitsAll e cs
    → (current_term (run e cs) ≡ (run e cs).state.current_term)
      × (e.state.current_term ≤ (run e cs).state.current_term)
unfolding run current_term
run_term e [] h f = (h, omega arith)
run_term e (c ∷ cs) h f =
    let one = step_term e c h f.0 in
    let rest = run_term (step e c) cs one.0 f.1 in (rest.0, omega arith)
