-- ===== src/Raft/Commit.antt =====
-- The commit index of a node of src/master/src/raft_state.rs, and what its callback is given.
use virthub.Common.{
  ℕ, zero, suc, ◌+◌, ◌-◌, ◌<◌, ◌≤◌, ◌≡◌, ◌≢◌, ◌⊎◌, refl, ap, sym, ◌∙◌, true, Option, none, some,
  List, [], ◌∷◌, ◌++◌, arith, length, take, drop, length-append, length-take,
}
use native.Mathlib.Nat.{suc-add}
use virthub.Raft.{
  RaftEngine, RaftLogEntry, Call, set_callback, promote, elect, propose_entry_command,
  propose_acquire, propose_release, request_vote, append_entries, commit, step, propose,
  propose_command, propose_lock_acquire, propose_lock_release, handle_request_vote,
  handle_append_entries, check_prev, conflict, deliver, commit_to_index, start_election,
  promote_to_leader, set_commit_callback,
}
use virthub.Raft.Log.{check_prev_cases, length-append_new}

-- The commit index stays inside the log.
abbrev pub IsCommitted : RaftEngine → Type 0
IsCommitted e = e.state.commit_index ≤ length e.state.log

-- An append request that does not conflict at or below the commit index.
abbrev pub IsSafe : RaftEngine → Call → Type 0
IsSafe e (append_entries l t pi pt xs lc) =
    (e.state.commit_index < pi) ⊎ (check_prev e.state.log pi pt ≢ conflict)
IsSafe e _ = Unit {0}

append-IsCommitted :
    (e : RaftEngine) (l t pi pt : ℕ) (xs : List RaftLogEntry) (lc : ℕ)
    → IsCommitted e
    → IsSafe e (append_entries l t pi pt xs lc)
    → IsCommitted (handle_append_entries e l t pi pt xs lc).0
      × (e.state.commit_index ≤ (handle_append_entries e l t pi pt xs lc).0.state.commit_index)
unfolding handle_append_entries
append-IsCommitted e l t pi pt xs lc h s = ground (
  arith,
  s,
  check_prev_cases e.state.log pi pt,
  length-append_new e.state.log t xs,
  length-take (pi - 1) e.state.log,
)

propose-IsCommitted :
    (e : RaftEngine) (x : RaftLogEntry)
    → IsCommitted e
    → IsCommitted (propose e x).0 × (e.state.commit_index ≤ (propose e x).0.state.commit_index)
unfolding propose
propose-IsCommitted e x h = ground (arith, length-append e.state.log (x ∷ []))

-- Every call keeps the commit index inside the log and never lowers it, provided that no append
-- request conflicts with an entry at or below it.
pub step-IsCommitted :
    (e : RaftEngine) (c : Call)
    → IsCommitted e
    → IsSafe e c
    → IsCommitted (step e c) × (e.state.commit_index ≤ (step e c).state.commit_index)
unfolding step
step-IsCommitted e set_callback h s = unfold set_commit_callback in ground arith
step-IsCommitted e promote h s = unfold promote_to_leader in ground arith
step-IsCommitted e elect h s = unfold start_election in ground arith
step-IsCommitted e (propose_entry_command p) h s =
    unfold propose_command in propose-IsCommitted e _ h
step-IsCommitted e (propose_acquire r c) h s =
    unfold propose_lock_acquire in propose-IsCommitted e _ h
step-IsCommitted e (propose_release r c) h s =
    unfold propose_lock_release in propose-IsCommitted e _ h
step-IsCommitted e (request_vote c t i lt) h s = unfold handle_request_vote in ground arith
step-IsCommitted e (append_entries l t pi pt xs lc) h s = append-IsCommitted e l t pi pt xs lc h s
step-IsCommitted e (commit k) h s = unfold commit_to_index in ground arith

-- A sequence of `commit_to_index` calls, with all that the callback is given, in order.
abbrev entries_of : Option (List RaftLogEntry) → List RaftLogEntry
entries_of none = []
entries_of (some xs) = xs

unfoldable pub commits : RaftEngine → List ℕ → RaftEngine × List RaftLogEntry
commits e [] = (e, [])
commits e (k ∷ ks) =
    let c = commit_to_index e k in
    let (e', xs) = commits c.engine ks in (e', entries_of c.delivered ++ xs)

take-nil : (n : ℕ) → take {A = RaftLogEntry} n [] ≡ []
take-nil zero = refl
take-nil (suc n) = refl

drop-nil : (n : ℕ) → drop {A = RaftLogEntry} n [] ≡ []
drop-nil zero = refl
drop-nil (suc n) = refl

entries_of-deliver : (xs : List RaftLogEntry) → entries_of (deliver true xs) ≡ xs
unfolding deliver
entries_of-deliver [] = refl
entries_of-deliver (x ∷ xs) = refl

take-add : (m n : ℕ) (xs : List RaftLogEntry) → take m xs ++ take n (drop m xs) ≡ take (m + n) xs
take-add zero n xs = ground arith
take-add (suc m) n [] = take-nil n ∙ sym (take-nil (suc m + n))
take-add (suc m) n (x ∷ xs) = rw suc-add (ap (◌∷◌ x) (take-add m n xs))

drop-drop : (m n : ℕ) (xs : List RaftLogEntry) → drop n (drop m xs) ≡ drop (m + n) xs
drop-drop zero n xs = ground arith
drop-drop (suc m) n [] = drop-nil n ∙ sym (drop-nil (suc m + n))
drop-drop (suc m) n (x ∷ xs) = rw suc-add (drop-drop m n xs)

commit_one :
    (e : RaftEngine) (k : ℕ)
    → IsCommitted e
    → e.has_callback ≡ true
    → let c = commit_to_index e k in
      let k0 = e.state.commit_index in
      let k1 = c.engine.state.commit_index in
      (k0 ≤ k1)
      × (k1 ≤ length e.state.log)
      × (c.engine.state.log ≡ e.state.log)
      × (c.engine.has_callback ≡ true)
      × (entries_of c.delivered ≡ take (k1 - k0) (drop k0 e.state.log))
unfolding commit_to_index
commit_one e k h cb = ground (
  arith,
  cb,
  entries_of-deliver (take (k - e.state.commit_index) (drop e.state.commit_index e.state.log)),
)

append_callback :
    (e : RaftEngine) (l t pi pt : ℕ) (xs : List RaftLogEntry) (lc : ℕ)
    → (handle_append_entries e l t pi pt xs lc).0.has_callback ≡ e.has_callback
unfolding handle_append_entries
append_callback e l t pi pt xs lc = ground arith

-- With a callback registered and the commit index inside the log, a sequence of commits delivers
-- each newly committed entry exactly once and in order: together the callback is given the log from
-- the old commit index to the new one.
pub commits_deliver :
    (e : RaftEngine) (ks : List ℕ)
    → IsCommitted e
    → e.has_callback ≡ true
    → let k0 = e.state.commit_index in
      let k1 = (commits e ks).0.state.commit_index in
      (k0 ≤ k1)
      × (k1 ≤ length e.state.log)
      × ((commits e ks).1 ≡ take (k1 - k0) (drop k0 e.state.log))
unfolding commits
commits_deliver e [] h cb = (omega arith, h, ground arith)
commits_deliver e (k ∷ ks) h cb =
    let one = commit_one e k h cb in
    let e1 = (commit_to_index e k).engine in
    let k0 = e.state.commit_index in
    let k1 = e1.state.commit_index in
    let k2 = (commits e1 ks).0.state.commit_index in
    let rest = commits_deliver e1 ks (ground arith) one.3 in
    ground (
      arith,
      take-add (k1 - k0) (k2 - k1) (drop k0 e.state.log),
      drop-drop k0 (k1 - k0) e.state.log,
    )

-- Entries that an append request commits are skipped: whatever commits follow, the callback is given
-- only entries after the commit index that the request has set.
pub append_commit_undelivered :
    (e : RaftEngine) (l t pi pt : ℕ) (xs : List RaftLogEntry) (lc : ℕ) (ks : List ℕ)
    → IsCommitted e
    → IsSafe e (append_entries l t pi pt xs lc)
    → e.has_callback ≡ true
    → let e' = (handle_append_entries e l t pi pt xs lc).0 in
      let end = (commits e' ks).0.state.commit_index in
      (e.state.commit_index ≤ e'.state.commit_index)
      × ((commits e' ks).1
          ≡ take (end - e'.state.commit_index) (drop e'.state.commit_index e'.state.log))
append_commit_undelivered e l t pi pt xs lc ks h s cb =
    let e' = (handle_append_entries e l t pi pt xs lc).0 in
    let kept = append-IsCommitted e l t pi pt xs lc h s in
    (kept.1, (commits_deliver e' ks kept.0 (append_callback e l t pi pt xs lc ∙ cb)).2)
