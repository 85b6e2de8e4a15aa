-- ===== src/Raft.antt =====
-- src/master/src/raft_state.rs: the state and operations of a Raft node. An operation takes the
-- engine as it is under the write lock and returns the new engine beside its result.
pub mod Terms
pub mod Votes
pub mod Log
pub mod Commit
mod Examples
use virthub.Common.{
  ℕ, zero, suc, ◌+◌, ◌-◌, Bool, true, false, ◌&&◌, ◌||◌, not, Option, none, some, List, [], ◌∷◌,
  ◌++◌, map, if◌then◌else◌, ltb, leb, ◌==◌, min, length, get_or, take, drop, nat_eq,
}
use virthub.Common.Word.{add64}
use virthub.Common.Map
use virthub.Common.Map.{Map}
use virthub.Common.Result.{Result, ok, err}

pub data RaftRole : Type 0 where
  follower candidate leader : RaftRole

pub data RaftStateError : Type 0 where
  not_leader : ℕ → Option ℕ → RaftStateError
  stale_term : (request_term current_term : ℕ) → RaftStateError
  log_index_out_of_bounds : (index last_index : ℕ) → RaftStateError
  uncommitted_log_index : ℕ → RaftStateError
  -- The string as its bytes.
  invalid_peer_format : List ℕ → RaftStateError

pub data RaftLogEntry : Type 0 where
  command : (index entry_term : ℕ) (payload : List ℕ) → RaftLogEntry
  lock_acquire : (resource_id client_pid : ℕ) → RaftLogEntry
  lock_release : (resource_id client_pid : ℕ) → RaftLogEntry

unfoldable pub term : RaftLogEntry → ℕ
term (command index t payload) = t
term (lock_acquire r c) = 0
term (lock_release r c) = 0

unfoldable pub set_term : ℕ → RaftLogEntry → RaftLogEntry
set_term t (command index t' payload) = command index t payload
set_term t (lock_acquire r c) = lock_acquire r c
set_term t (lock_release r c) = lock_release r c

pub record RaftSnapshot : Type 0 where
  pub last_included_index : ℕ
  pub last_included_term : ℕ
  pub bytes : List ℕ

-- A NodeId is its number.
pub record RaftNodeState : Type 0 where
  pub node_id : ℕ
  pub role : RaftRole
  pub current_term : ℕ
  pub voted_for : Option ℕ
  pub leader_id : Option ℕ
  pub log : List RaftLogEntry
  pub commit_index : ℕ
  pub last_applied : ℕ
  pub peers : List ℕ
  pub next_index : Map ℕ ℕ
  pub match_index : Map ℕ ℕ
  pub last_snapshot : Option RaftSnapshot

-- `has_callback` says whether a commit callback is registered; what it is called with is a result.
pub record RaftEngine : Type 0 where
  pub state : RaftNodeState
  pub term_counter : ℕ
  pub has_callback : Bool

unfoldable pub new : ℕ → List ℕ → RaftEngine
new node_id initial_peers = record {
  state = record {
    node_id = node_id;
    role = follower;
    current_term = 0;
    voted_for = none;
    leader_id = none;
    log = [];
    commit_index = 0;
    last_applied = 0;
    peers = initial_peers;
    next_index = Map.empty;
    match_index = Map.empty;
    last_snapshot = none;
  };
  term_counter = 0;
  has_callback = false;
}

unfoldable pub set_commit_callback : RaftEngine → RaftEngine
set_commit_callback e = record e { has_callback = true }

-- `state.role != RaftRole::Leader`, negated
unfoldable pub is_leader : RaftRole → Bool
is_leader leader = true
is_leader _ = false

-- The body that the three `propose_` functions share: guard, push, index.
unfoldable pub propose : RaftEngine → RaftLogEntry → RaftEngine × Result RaftStateError ℕ
unfolding is_leader
propose e entry =
    let s = e.state in
    if is_leader s.role
    then (record e { state = record s { log = s.log ++ (entry ∷ []) } }, ok (length s.log + 1))
    else (e, err (not_leader s.node_id s.leader_id))

unfoldable pub propose_command : RaftEngine → List ℕ → RaftEngine × Result RaftStateError ℕ
unfolding propose
propose_command e payload =
    propose e (command (length e.state.log + 1) e.state.current_term payload)

unfoldable pub propose_lock_acquire : RaftEngine → ℕ → ℕ → RaftEngine × Result RaftStateError ℕ
unfolding propose
propose_lock_acquire e resource_id client_pid = propose e (lock_acquire resource_id client_pid)

unfoldable pub propose_lock_release : RaftEngine → ℕ → ℕ → RaftEngine × Result RaftStateError ℕ
unfolding propose
propose_lock_release e resource_id client_pid = propose e (lock_release resource_id client_pid)

-- `state.log.last().map(|e| e.term()).unwrap_or(0)`
unfoldable pub last_term : List RaftLogEntry → ℕ
unfolding term
last_term [] = 0
last_term (x ∷ []) = term x
last_term (x ∷ y ∷ xs) = last_term (y ∷ xs)

-- The step to a newer term that a vote request makes.
unfoldable pub observe_term : RaftEngine → ℕ → RaftEngine
observe_term e t =
    let s = e.state in
    if ltb s.current_term t
    then record e {
      state = record s { current_term = t; role = follower; voted_for = none; leader_id = none };
      term_counter = t;
    }
    else e

unfoldable pub log_is_up_to_date : List RaftLogEntry → ℕ → ℕ → Bool
unfolding last_term
log_is_up_to_date log last_log_index last_log_term =
    ltb (last_term log) last_log_term
    || (last_log_term == last_term log && leb (length log) last_log_index)

-- `voted_for.is_none() || voted_for == Some(candidate_id)`
unfoldable pub is_free_for : Option ℕ → ℕ → Bool
is_free_for none candidate_id = true
is_free_for (some c) candidate_id = c == candidate_id

unfoldable pub handle_request_vote :
    RaftEngine
    → (candidate_id t last_log_index last_log_term : ℕ) → RaftEngine × Result RaftStateError Bool
unfolding observe_term log_is_up_to_date is_free_for
handle_request_vote e candidate_id t last_log_index last_log_term =
    let e' = observe_term e t in
    let s = e'.state in
    if ltb t e.state.current_term
    then (e, err (stale_term t e.state.current_term))
    else if is_free_for s.voted_for candidate_id
        && log_is_up_to_date s.log last_log_index last_log_term
    then (record e' { state = record s { voted_for = some candidate_id } }, ok true)
    else (e', ok false)

-- The step to a newer term that an append request makes, and what it always records.
unfoldable pub recognize_leader : RaftEngine → (leader_id t : ℕ) → RaftEngine
recognize_leader e leader_id t =
    let s = e.state in
    if ltb s.current_term t
    then record e {
      state = record s {
        current_term = t;
        role = follower;
        leader_id = some leader_id;
        voted_for = none;
      };
      term_counter = t;
    }
    else record e { state = record s { leader_id = some leader_id; voted_for = none } }

-- The entries are pushed in order, with the term of the request.
unfoldable pub append_new : List RaftLogEntry → ℕ → List RaftLogEntry → List RaftLogEntry
unfolding set_term
append_new log t [] = log
append_new log t (x ∷ xs) = append_new (log ++ (set_term t x ∷ [])) t xs

-- The term of the entry at an index in bounds.
unfoldable pub term_at : List RaftLogEntry → ℕ → ℕ
unfolding term
term_at log i = term (get_or log i (lock_release 0 0))

-- What the consistency check on `prev_log_index` finds.
pub data Consistency : Type 0 where
  consistent missing conflict : Consistency

unfoldable pub check_prev : List RaftLogEntry → (prev_log_index prev_log_term : ℕ) → Consistency
unfolding term_at
check_prev log prev_log_index prev_log_term =
    if ltb 0 prev_log_index
    then (if ltb (length log) prev_log_index
        then missing
        else if term_at log (prev_log_index - 1) == prev_log_term
        then consistent
        else conflict)
    else consistent

-- The tail of `handle_append_entries`, once the log is found consistent.
unfoldable pub accept_entries : RaftEngine → ℕ → List RaftLogEntry → ℕ → RaftEngine
unfolding append_new
accept_entries e t entries leader_commit =
    let s = e.state in
    let log' = append_new s.log t entries in
    record e {
      state = record s {
        log = log';
        commit_index =
            if ltb s.commit_index leader_commit
            then min leader_commit (length log')
            else s.commit_index;
      };
    }

-- This function never fails: its result is the Boolean.
unfoldable pub handle_append_entries :
    RaftEngine
    → (leader_id t prev_log_index prev_log_term : ℕ) → List RaftLogEntry
    → ℕ
    → RaftEngine × Bool
unfolding recognize_leader check_prev accept_entries
handle_append_entries e leader_id t prev_log_index prev_log_term entries leader_commit =
    let e' = recognize_leader e leader_id t in
    let s = e'.state in
    if ltb t e.state.current_term
    then (e, false)
    else elim (check_prev s.log prev_log_index prev_log_term) [
      | consistent ↦ (accept_entries e' t entries leader_commit, true)
      | missing ↦ (e', false)
      | conflict ↦ (record e' { state = record s { log = take (prev_log_index - 1) s.log } }, false)
    ]

-- The loop over the peers, for one of the two maps.
unfoldable pub insert_peers : ℕ → List ℕ → ℕ → Map ℕ ℕ → Map ℕ ℕ
insert_peers self [] v m = m
insert_peers self (node ∷ nodes) v m =
    insert_peers self nodes v (if node == self then m else Map.insert m node v)

unfoldable pub promote_to_leader : RaftEngine → RaftEngine
unfolding insert_peers
promote_to_leader e =
    let s = e.state in
    record e {
      state = record s {
        role = leader;
        leader_id = some s.node_id;
        next_index = insert_peers s.node_id s.peers (length s.log + 1) s.next_index;
        match_index = insert_peers s.node_id s.peers 0 s.match_index;
      };
    }

-- The term is a u64 and wraps.
unfoldable pub start_election : RaftEngine → RaftEngine
start_election e =
    let s = e.state in
    let t = add64 s.current_term 1 in
    record e {
      state = record s {
        current_term = t;
        role = candidate;
        voted_for = some s.node_id;
        leader_id = none;
      };
      term_counter = t;
    }

-- Beside the result stand the entries that the callback is called with, if it is called.
pub record Committed : Type 0 where
  pub engine : RaftEngine
  pub delivered : Option (List RaftLogEntry)
  pub result : Result RaftStateError (Unit {0})

-- `if !new_entries.is_empty() { cb(&new_entries) }`
unfoldable pub deliver : Bool → List RaftLogEntry → Option (List RaftLogEntry)
deliver false entries = none
deliver true [] = none
deliver true (x ∷ xs) = some (x ∷ xs)

unfoldable pub commit_to_index : RaftEngine → ℕ → Committed
unfolding deliver
commit_to_index e target_index =
    let s = e.state in
    let new_entries = take (target_index - s.commit_index) (drop s.commit_index s.log) in
    if ltb (length s.log) target_index
    then record {
      engine = e;
      delivered = none;
      result = err (log_index_out_of_bounds target_index (length s.log));
    }
    else if ltb s.commit_index target_index
    then record {
      engine = record e { state = record s { commit_index = target_index } };
      delivered = deliver e.has_callback new_entries;
      result = ok tt;
    }
    else record { engine = e; delivered = none; result = ok tt }

unfoldable pub current_term : RaftEngine → ℕ
current_term e = e.term_counter

unfoldable pub last_log_index : RaftEngine → ℕ
last_log_index e = length e.state.log

unfoldable pub last_log_term : RaftEngine → ℕ
unfolding last_term
last_log_term e = last_term e.state.log

-- The operations that change the state, as calls.
pub data Call : Type 0 where
  set_callback promote elect : Call
  propose_entry_command : List ℕ → Call
  propose_acquire propose_release : ℕ → ℕ → Call
  request_vote : (candidate_id t last_log_index last_log_term : ℕ) → Call
  append_entries :
      (leader_id t prev_log_index prev_log_term : ℕ) (entries : List RaftLogEntry)
      (leader_commit : ℕ)
      → Call
  commit : ℕ → Call

unfoldable pub step : RaftEngine → Call → RaftEngine
step e set_callback = set_commit_callback e
step e promote = promote_to_leader e
step e elect = start_election e
step e (propose_entry_command payload) = (propose_command e payload).0
step e (propose_acquire r c) = (propose_lock_acquire e r c).0
step e (propose_release r c) = (propose_lock_release e r c).0
step e (request_vote c t i lt) = (handle_request_vote e c t i lt).0
step e (append_entries l t pi pt xs lc) = (handle_append_entries e l t pi pt xs lc).0
step e (commit target) = (commit_to_index e target).engine

unfoldable pub run : RaftEngine → List Call → RaftEngine
unfolding step
run e [] = e
run e (c ∷ cs) = run (step e c) cs
