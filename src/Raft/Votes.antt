-- ===== src/Raft/Votes.antt =====
-- Votes of a node of src/master/src/raft_state.rs.
use virthub.Common.{
  ℕ, ◌<◌, ◌≤◌, ◌≡◌, ◌↔◌, ◌⊎◌, inl, inr, refl, Bool, true, false, Option, none, some, if◌then◌else◌,
  ltb, List, [], ◌∷◌, ◌++◌, arith, length,
}
use virthub.Common.Result.{Result, ok, err}
use virthub.Raft.{
  RaftStateError, stale_term, follower, observe_term, RaftEngine, RaftLogEntry, lock_acquire,
  lock_release, Call, set_callback, promote, elect, propose_entry_command, propose_acquire,
  propose_release, request_vote, append_entries, commit, step, run, term, last_term,
  propose_command, propose_lock_acquire, propose_lock_release, handle_request_vote,
  handle_append_entries, commit_to_index, start_election, promote_to_leader, set_commit_callback,
  log_is_up_to_date,
}
use virthub.Raft.Terms.{Fits, FitsAll, IsSynced, step_term, run_term}

-- The node in the request's term with the given vote: a newer term makes it a follower without a
-- leader and is stored in the lock-free copy of the term; nothing else changes.
abbrev voted : RaftEngine → ℕ → Option ℕ → RaftEngine
voted e t vote =
    if ltb e.state.current_term t
    then record e {
      state = record (e.state) {
        current_term = t;
        role = follower;
        leader_id = none;
        voted_for = vote;
      };
      term_counter = t;
    }
    else record e { state = record (e.state) { voted_for = vote } }

-- The node after a vote request, by its result.
abbrev pub IsVoted : RaftEngine → ℕ → ℕ → RaftEngine → Result RaftStateError Bool → Type 0
IsVoted e c t e' (ok true) = e' ≡ voted e t (some c)
IsVoted e c t e' (ok false) =
    e' ≡ voted e t (if ltb e.state.current_term t then none else e.state.voted_for)
IsVoted e c t e' (err _) = e' ≡ e

-- A vote is granted exactly when the request's term is not stale, the candidate's last log term and
-- length are at least the node's in lexicographic order, and the node has voted for nobody else in
-- the request's term (a newer term clears the vote). The request fails exactly on a stale term, and
-- then changes nothing. A grant leaves the node in the request's term with the candidate as its vote,
-- a refusal leaves it in that term with the vote it had, which a newer term clears; apart from that,
-- a newer term makes it a follower without a leader and is stored in the lock-free copy, and nothing
-- else changes.
pub handle_request_vote_iff :
    (e : RaftEngine) (c t i lt : ℕ)
    → let r = handle_request_vote e c t i lt in
      let s = e.state in
      ((r.1 ≡ ok true) ↔ (
        (s.current_term ≤ t)
        × ((last_term s.log < lt) ⊎ ((lt ≡ last_term s.log) × (length s.log ≤ i)))
        × ((s.current_term < t) ⊎ (s.voted_for ≡ none) ⊎ (s.voted_for ≡ some c))))
      × ((r.1 ≡ err (stale_term t s.current_term)) ↔ (t < s.current_term))
      × IsVoted e c t r.0 r.1
unfolding handle_request_vote observe_term
handle_request_vote_iff e c t i lt = ground arith

-- Calls other than `handle_append_entries`.
abbrev pub IsNoAppend : Call → Type 0
IsNoAppend (append_entries l t pi pt xs lc) = ⊥
IsNoAppend _ = Unit {0}

abbrev pub NoAppends : List Call → Type 0
NoAppends [] = Unit {0}
NoAppends (c ∷ cs) = IsNoAppend c × NoAppends cs

-- Either the term has grown, or it is the same and so is the vote for `c`.
abbrev Kept : RaftEngine → RaftEngine → ℕ → Type 0
Kept e f c =
    (e.state.current_term < f.state.current_term)
    ⊎ ((e.state.current_term ≡ f.state.current_term) × (f.state.voted_for ≡ some c))

step_keeps_vote :
    (e : RaftEngine) (k : Call) (c : ℕ)
    → IsNoAppend k
    → Fits e k
    → e.state.voted_for ≡ some c
    → Kept e (step e k) c
unfolding step
step_keeps_vote e set_callback c n f v = unfold set_commit_callback in ground arith
step_keeps_vote e promote c n f v = unfold promote_to_leader in ground arith
step_keeps_vote e elect c n f v = unfold start_election in ground arith
step_keeps_vote e (propose_entry_command p) c n f v = unfold propose_command in ground arith
step_keeps_vote e (propose_acquire r q) c n f v = unfold propose_lock_acquire in ground arith
step_keeps_vote e (propose_release r q) c n f v = unfold propose_lock_release in ground arith
step_keeps_vote e (request_vote d t i lt) c n f v = unfold handle_request_vote in ground arith
step_keeps_vote e (append_entries l t pi pt xs lc) c n f v = absurd n
step_keeps_vote e (commit k) c n f v = unfold commit_to_index in ground arith

-- One vote for each term, as long as no append request comes in and no election overflows the term:
-- after any such history a vote that stood for `c` still stands for `c`, or the term has grown.
pub run_keeps_vote :
    (e : RaftEngine) (cs : List Call) (c : ℕ)
    → NoAppends cs
    → IsSynced e
    → FitsAll e cs
    → e.state.voted_for ≡ some c
    → (e.state.current_term < (run e cs).state.current_term)
      ⊎ ((e.state.current_term ≡ (run e cs).state.current_term)
          × ((run e cs).state.voted_for ≡ some c))
unfolding run
run_keeps_vote e [] c n h f v = inr (refl, v)
run_keeps_vote e (k ∷ cs) c n h f v =
    let synced = (step_term e k h f.0).0 in
    elim (step_keeps_vote e k c n.0 f.0 v) [
      | inl grew ↦ inl (omega (arith, (run_term (step e k) cs synced f.1).1))
      | inr (same, vote) ↦ ground (arith, same, run_keeps_vote (step e k) cs c n.1 synced f.1 vote)
    ]

-- An append request clears the vote in its own term. So a node that has voted for `a` in its
-- current term votes for any other candidate `b` with an up-to-date log in the same term once a
-- heartbeat of that term has come in.
pub heartbeat_frees_vote :
    (e : RaftEngine) (a b l i lt : ℕ)
    → e.state.voted_for ≡ some a
    → log_is_up_to_date e.state.log i lt ≡ true
    → let t = e.state.current_term in
      let e' = (handle_append_entries e l t 0 0 [] 0).0 in
      (e'.state.current_term ≡ t)
      × ((handle_request_vote e' b t i lt).1 ≡ ok true)
      × ((handle_request_vote e' b t i lt).0.state.voted_for ≡ some b)
unfolding handle_append_entries handle_request_vote
heartbeat_frees_vote e a b l i lt v u = ground arith

last_term_end : (log : List RaftLogEntry) (x : RaftLogEntry) → last_term (log ++ (x ∷ [])) ≡ term x
unfolding last_term
last_term_end [] x = refl
last_term_end (y ∷ []) x = refl
last_term_end (y ∷ z ∷ log) x = last_term_end (z ∷ log) x

-- A log that ends in a lock entry counts as having last term 0: a candidate whose own last entry has
-- a positive term is up to date for it, however short its log is.
pub lock_entry_hides_term :
    (log : List RaftLogEntry) (r q i lt : ℕ)
    → 0 < lt
    → (log_is_up_to_date (log ++ (lock_acquire r q ∷ [])) i lt ≡ true)
      × (log_is_up_to_date (log ++ (lock_release r q ∷ [])) i lt ≡ true)
unfolding log_is_up_to_date
lock_entry_hides_term log r q i lt h =
    ground (arith, last_term_end log (lock_acquire r q), last_term_end log (lock_release r q))
