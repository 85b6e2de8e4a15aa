-- ===== src/Raft/Examples.antt =====
-- The Raft node of src/master/src/raft_state.rs in small histories.
use virthub.Common.{
  ℕ, ◌-◌, ◌<◌, ◌≤◌, ◌≡◌, ◌↔◌, ◌⊎◌, inl, refl, true, none, some, List, [], ◌∷◌, take, drop, arith,
}
use virthub.Common.Map
use virthub.Common.Result.{ok, err}
use virthub.Raft.{
  RaftEngine, RaftLogEntry, command, follower, Call, elect, promote, propose_entry_command,
  request_vote, append_entries, commit, step, run, handle_request_vote, handle_append_entries,
  last_term, stale_term, current_term,
}
use virthub.Raft.Terms.{IsSynced, FitsAll, run_term}
use virthub.Raft.Votes.{IsVoted, handle_request_vote_iff}
use virthub.Raft.Log.{AppendOutcome, handle_append_entries-AppendOutcome}
use virthub.Raft.Commit.{IsCommitted, step-IsCommitted, commits, commits_deliver}

abbrev entry : ℕ → RaftLogEntry
entry t = command 0 t []

-- A follower in term 3 that has voted for node 2, with two entries, the first of them committed.
abbrev node : RaftEngine
node = record {
  state = record {
    node_id = 1;
    role = follower;
    current_term = 3;
    voted_for = some 2;
    leader_id = none;
    log = entry 1 ∷ entry 2 ∷ [];
    commit_index = 1;
    last_applied = 0;
    peers = 2 ∷ 3 ∷ [];
    next_index = Map.empty;
    match_index = Map.empty;
    last_snapshot = none;
  };
  term_counter = 3;
  has_callback = true;
}

handle_request_vote_iff_example :
    let r = handle_request_vote node 3 4 2 2 in
    ((r.1 ≡ ok true) ↔ (
      (3 ≤ 4)
      × ((last_term node.state.log < 2) ⊎ ((2 ≡ last_term node.state.log) × (2 ≤ 2)))
      × ((3 < 4) ⊎ (node.state.voted_for ≡ none) ⊎ (node.state.voted_for ≡ some 3))))
    × ((r.1 ≡ err (stale_term 4 3)) ↔ (4 < 3))
    × IsVoted node 3 4 r.0 r.1
handle_request_vote_iff_example = handle_request_vote_iff node 3 4 2 2

abbrev history : List Call
history = elect ∷ promote ∷ propose_entry_command (7 ∷ []) ∷ commit 3 ∷ request_vote 3 4 5 5 ∷ []

node-IsSynced : IsSynced node
node-IsSynced = refl

history-FitsAll : FitsAll node history
history-FitsAll = (omega arith, (tt, (tt, (tt, (tt, tt)))))

run_term_example :
    (current_term (run node history) ≡ (run node history).state.current_term)
    × (3 ≤ (run node history).state.current_term)
run_term_example = run_term node history node-IsSynced history-FitsAll

handle_append_entries-AppendOutcome_example :
    let r = handle_append_entries node 9 3 2 2 (entry 3 ∷ []) 3 in
    AppendOutcome node 3 2 2 (entry 3 ∷ []) 3 r.0 r.1
handle_append_entries-AppendOutcome_example =
    handle_append_entries-AppendOutcome node 9 3 2 2 (entry 3 ∷ []) 3

step-IsCommitted_example :
    let c = append_entries 9 3 2 1 (entry 3 ∷ []) 3 in
    IsCommitted (step node c) × (1 ≤ (step node c).state.commit_index)
step-IsCommitted_example =
    step-IsCommitted node (append_entries 9 3 2 1 (entry 3 ∷ []) 3) (omega arith)
      (inl (omega arith))

commits_deliver_example :
    let k1 = (commits node (0 ∷ 2 ∷ 5 ∷ [])).0.state.commit_index in
    (1 ≤ k1)
    × (k1 ≤ 2)
    × ((commits node (0 ∷ 2 ∷ 5 ∷ [])).1 ≡ take (k1 - 1) (drop 1 node.state.log))
commits_deliver_example = commits_deliver node (0 ∷ 2 ∷ 5 ∷ []) (omega arith) refl
