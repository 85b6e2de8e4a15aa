-- ===== src/Raft/Log.antt =====
-- The log of a node of src/master/src/raft_state.rs under append requests and proposals.
use virthub.Common.{
  ℕ, zero, suc, ◌+◌, ◌-◌, ◌<◌, ◌≤◌, ◌≡◌, ◌≢◌, ◌⊎◌, inl, inr, refl, ap, subst, sym, ◌∙◌, Bool, true,
  false, List, [], ◌∷◌, ◌++◌, map, if◌then◌else◌, ltb, arith, length, min, take, get_or,
  length-append, length-take, Bool-cases,
}
use mathlib.Core.List.{append-nil, append_assoc}
use virthub.Common.Result.{ok, err}
use virthub.Raft.{
  not_leader, leader, RaftEngine, RaftLogEntry, lock_release, set_term, propose,
  handle_append_entries, check_prev, append_new, term_at, consistent, missing, conflict,
}

pub append_new_lem :
    (log : List RaftLogEntry) (t : ℕ) (xs : List RaftLogEntry)
    → append_new log t xs ≡ log ++ map (set_term t) xs
unfolding append_new
append_new_lem log t [] = sym (append-nil log)
append_new_lem log t (x ∷ xs) =
    append_new_lem (log ++ (set_term t x ∷ [])) t xs
    ∙ append_assoc log (set_term t x ∷ []) (map (set_term t) xs)

length-map_term : (t : ℕ) (xs : List RaftLogEntry) → length (map (set_term t) xs) ≡ length xs
length-map_term t [] = refl
length-map_term t (x ∷ xs) = ap suc (length-map_term t xs)

pub length-append_new :
    (log : List RaftLogEntry) (t : ℕ) (xs : List RaftLogEntry)
    → length (append_new log t xs) ≡ length log + length xs
length-append_new log t xs =
    ap length (append_new_lem log t xs)
    ∙ (length-append log (map (set_term t) xs)
        ∙ ap (λ (n : ℕ). length log + n) (length-map_term t xs))

pub check_prev_cases :
    (log : List RaftLogEntry) (pi pt : ℕ)
    → ((check_prev log pi pt ≡ consistent)
        × (pi ≤ length log)
        × ((pi ≡ 0) ⊎ (term_at log (pi - 1) ≡ pt)))
      ⊎ ((check_prev log pi pt ≡ missing) × (length log < pi))
      ⊎ ((check_prev log pi pt ≡ conflict)
          × (0 < pi)
          × (pi ≤ length log)
          × (term_at log (pi - 1) ≢ pt))
unfolding check_prev
check_prev_cases log pi pt = ground arith

-- What an append request may do, told apart by its premises.
pub data AppendOutcome (e : RaftEngine) (t prev_index prev_term : ℕ) (xs : List RaftLogEntry)
    (leader_commit : ℕ) (e' : RaftEngine) (answer : Bool) : Type 0 where
  stale :
      t < e.state.current_term
      → e' ≡ e
      → answer ≡ false
      → AppendOutcome e t prev_index prev_term xs leader_commit e' answer
  behind :
      e.state.current_term ≤ t
      → length e.state.log < prev_index
      → e'.state.log ≡ e.state.log
      → e'.state.commit_index ≡ e.state.commit_index
      → answer ≡ false
      → AppendOutcome e t prev_index prev_term xs leader_commit e' answer
  conflicting :
      e.state.current_term ≤ t
      → 0 < prev_index
      → prev_index ≤ length e.state.log
      → term_at e.state.log (prev_index - 1) ≢ prev_term
      → e'.state.log ≡ take (prev_index - 1) e.state.log
      → e'.state.commit_index ≡ e.state.commit_index
      → answer ≡ false
      → AppendOutcome e t prev_index prev_term xs leader_commit e' answer
  accepted :
      e.state.current_term ≤ t
      → prev_index ≤ length e.state.log
      → (prev_index ≡ 0) ⊎ (term_at e.state.log (prev_index - 1) ≡ prev_term)
      → e'.state.log ≡ e.state.log ++ map (set_term t) xs
      → e'.state.commit_index ≡ (
          if ltb e.state.commit_index leader_commit
          then min leader_commit (length e.state.log + length xs)
          else e.state.commit_index)
      → answer ≡ true
      → AppendOutcome e t prev_index prev_term xs leader_commit e' answer

-- Every append request has one of four outcomes: a stale term changes nothing; a gap in the log or a
-- conflicting previous entry is answered with false, the conflict cutting the log from that entry
-- on; otherwise the entries are appended at the END of the log with the request's term, the commit
-- index rises to the leader's at most, and the answer is true.
pub handle_append_entries-AppendOutcome :
    (e : RaftEngine) (l t pi pt : ℕ) (xs : List RaftLogEntry) (lc : ℕ)
    → let r = handle_append_entries e l t pi pt xs lc in AppendOutcome e t pi pt xs lc r.0 r.1
unfolding handle_append_entries
handle_append_entries-AppendOutcome e l t pi pt xs lc =
    elim (Bool-cases (ltb t e.state.current_term)) [
      | inl old ↦ stale (ground arith) (ground arith) (ground arith)
      | inr fresh ↦ elim (check_prev_cases e.state.log pi pt) [
        | inl (c, le, prev) ↦
            accepted (ground arith) le prev (ground (arith, append_new_lem e.state.log t xs))
              (ground (arith, length-append_new e.state.log t xs)) (ground arith)
        | inr (inl (c, gap)) ↦
            behind (ground arith) gap (ground arith) (ground arith) (ground arith)
        | inr (inr (c, pos, le, ne)) ↦
            conflicting (ground arith) pos le ne (ground arith) (ground arith) (ground arith)
      ]
    ]

-- A proposal is accepted by a leader alone: it appends the entry at the end and returns its position,
-- counted from 1; any other node refuses it and changes nothing.
pub propose_lem :
    (e : RaftEngine) (x : RaftLogEntry)
    → ((e.state.role ≡ leader)
        × ((propose e x).1 ≡ ok (length (propose e x).0.state.log))
        × ((propose e x).0.state.log ≡ e.state.log ++ (x ∷ [])))
      ⊎ ((e.state.role ≢ leader)
          × ((propose e x).1 ≡ err (not_leader e.state.node_id e.state.leader_id))
          × ((propose e x).0 ≡ e))
unfolding propose
propose_lem e x = ground (arith, length-append e.state.log (x ∷ []))

get_or-append_left :
    (xs ys : List RaftLogEntry) (i : ℕ) (d : RaftLogEntry)
    → i < length xs
    → get_or (xs ++ ys) i d ≡ get_or xs i d
get_or-append_left [] ys i d h = absurd (omega arith)
get_or-append_left (x ∷ xs) ys zero d h = refl
get_or-append_left (x ∷ xs) ys (suc i) d h = get_or-append_left xs ys i d (omega arith)

check_prev-append :
    (log xs : List RaftLogEntry) (pi pt : ℕ)
    → check_prev log pi pt ≡ consistent
    → check_prev (log ++ xs) pi pt ≡ consistent
unfolding check_prev term_at
check_prev-append log xs pi pt h =
    ground (arith, length-append log xs, get_or-append_left log xs (pi - 1) (lock_release 0 0))

accepted_log :
    (e : RaftEngine) (l t pi pt : ℕ) (xs : List RaftLogEntry) (lc : ℕ)
    → e.state.current_term ≤ t
    → check_prev e.state.log pi pt ≡ consistent
    → let r = handle_append_entries e l t pi pt xs lc in
      (r.1 ≡ true)
      × (r.0.state.log ≡ e.state.log ++ map (set_term t) xs)
      × (r.0.state.current_term ≡ t)
unfolding handle_append_entries
accepted_log e l t pi pt xs lc h c = ground (arith, append_new_lem e.state.log t xs)

-- An accepted request is not idempotent: when the same message is delivered again, it is accepted
-- again and its entries are appended a second time, since nothing after the previous index is
-- compared or cut.
pub append_entries_redelivered :
    (e : RaftEngine) (l t pi pt : ℕ) (xs : List RaftLogEntry) (lc : ℕ)
    → e.state.current_term ≤ t
    → check_prev e.state.log pi pt ≡ consistent
    → let once = (handle_append_entries e l t pi pt xs lc).0 in
      let twice = handle_append_entries once l t pi pt xs lc in
      (twice.1 ≡ true)
      × (twice.0.state.log ≡ (e.state.log ++ map (set_term t) xs) ++ map (set_term t) xs)
append_entries_redelivered e l t pi pt xs lc h c =
    let once = (handle_append_entries e l t pi pt xs lc).0 in
    let first = accepted_log e l t pi pt xs lc h c in
    let again = accepted_log once l t pi pt xs lc (omega (arith, first.2)) (
      subst (λ log. check_prev log pi pt ≡ consistent) (sym first.1)
        (check_prev-append e.state.log (map (set_term t) xs) pi pt c)) in
    (again.0, again.1 ∙ ap (λ log. log ++ map (set_term t) xs) first.1)

-- In a request whose term is not stale, and with the commit index inside the log, a conflicting
-- previous entry at or below the commit index cuts committed entries off: the commit index then
-- lies beyond the end of the log.
pub conflict_cuts_committed :
    (e : RaftEngine) (l t pi pt : ℕ) (xs : List RaftLogEntry) (lc : ℕ)
    → e.state.current_term ≤ t
    → e.state.commit_index ≤ length e.state.log
    → 0 < pi
    → pi ≤ e.state.commit_index
    → term_at e.state.log (pi - 1) ≢ pt
    → let e' = (handle_append_entries e l t pi pt xs lc).0 in
      (length e'.state.log < e'.state.commit_index) × (e'.state.commit_index ≡ e.state.commit_index)
unfolding handle_append_entries
conflict_cuts_committed e l t pi pt xs lc h bounded pos low ne =
    ground (arith, check_prev_cases e.state.log pi pt, length-take (pi - 1) e.state.log)
