-- ===== src/ControlPlane/Locks.antt =====
-- The locks of src/klnk/klnk-core/src/control_plane.rs against a queue per resource.
use virthub.Common.{
  ℕ, ◌≡◌, refl, ap, ap₂, ◌∙◌, fun_ext, Bool, true, false, none, some, List, [], ◌∷◌, ◌++◌,
  if◌then◌else◌, ◌==◌, arith, Bool-cases, Option-cases, inl, inr,
}
use virthub.Common.Result.{Result, ok, err}
use virthub.ControlPlane.{
  ControlPlaneManager, ControlPlaneError, LockState, contains, lock_entry, acquire_state,
  acquire_lock, hand_over, owns, release_state, release_lock,
}

-- No process appears twice.
abbrev pub NoDup : List ℕ → Type 0
NoDup [] = Unit
NoDup (x ∷ xs) = (contains xs x ≡ false) × NoDup xs

-- The promise of a lock: a queue whose first process holds it.
abbrev pub enqueue : List ℕ → ℕ → List ℕ
enqueue q p = if contains q p then q else q ++ (p ∷ [])

abbrev pub dequeue : List ℕ → ℕ → List ℕ
dequeue [] p = []
dequeue (x ∷ xs) p = if x == p then xs else x ∷ xs

abbrev pub holds : List ℕ → ℕ → Bool
holds [] p = false
holds (x ∷ xs) p = x == p

-- The queue that a lock's state stands for, and the states that stand for one.
abbrev pub queue : LockState → List ℕ
queue l = elim l.current_owner_pid [ none ↦ [] | some o ↦ o ∷ l.waiting_pids ]

abbrev pub IsLock : LockState → Type 0
IsLock l = elim l.current_owner_pid [
  | none ↦ l.waiting_pids ≡ []
  | some o ↦ NoDup (o ∷ l.waiting_pids)
]

contains-snoc :
    (xs : List ℕ) (p q : ℕ)
    → contains xs q ≡ false
    → (p == q) ≡ false
    → contains (xs ++ (p ∷ [])) q ≡ false
unfolding contains
contains-snoc [] p q h e = ground (arith, e)
contains-snoc (x ∷ xs) p q h e = ground (arith, contains-snoc xs p q)

pub NoDup-snoc : (xs : List ℕ) (p : ℕ) → NoDup xs → contains xs p ≡ false → NoDup (xs ++ (p ∷ []))
unfolding contains
NoDup-snoc [] p h n = (refl, tt)
NoDup-snoc (x ∷ xs) p h n =
    (contains-snoc xs p x h.0 (ground arith), NoDup-snoc xs p h.1 (ground arith))

acquire_state_refines :
    (l : LockState) (p : ℕ)
    → IsLock l
    → let r = acquire_state l p in
      IsLock r.0 × (queue r.0 ≡ enqueue (queue l) p) × (r.1 ≡ holds (enqueue (queue l) p) p)
unfolding acquire_state contains
acquire_state_refines l p h = elim (Option-cases l.current_owner_pid) [
  | inl e ↦ ground (arith, h, e)
  | inr (o, e) ↦ elim (Bool-cases (contains l.waiting_pids p)) [
    | inl c ↦ ground (arith, h, c, e)
    | inr c ↦ ground (arith, h, c, e, NoDup-snoc (o ∷ l.waiting_pids) p)
  ]
]

release_state_refines :
    (l : LockState) (p : ℕ)
    → IsLock l
    → let r = release_state l p in
      IsLock r.0 × (queue r.0 ≡ dequeue (queue l) p) × (r.1 ≡ holds (queue l) p)
unfolding release_state hand_over owns
release_state_refines l p h = ground (arith, h)

-- The locks of a manager as a queue per resource, and the managers that stand for such queues.
abbrev pub lock_queue : ControlPlaneManager → ℕ → List ℕ
lock_queue c r = elim (c.locks r) [ none ↦ [] | some l ↦ queue l ]

abbrev pub IsLocks : ControlPlaneManager → Type 0
IsLocks c = (r : ℕ) → elim (c.locks r) [ none ↦ Unit {0} | some l ↦ IsLock l ]

abbrev pub is_ok : Result ControlPlaneError Unit → Bool
is_ok (ok _) = true
is_ok (err _) = false

-- The calls of clients, in the order in which the manager serves them, and whether each succeeds.
pub data LockCall : Type 0 where
  acquire release : (resource_id client_pid : ℕ) → LockCall

unfoldable pub run_locks : ControlPlaneManager → List LockCall → ControlPlaneManager × List Bool
unfolding acquire_lock release_lock
run_locks c [] = (c, [])
run_locks c (acquire r p ∷ calls) =
    let (c', res) = acquire_lock c r p in
    let (c'', rest) = run_locks c' calls in (c'', is_ok res ∷ rest)
run_locks c (release r p ∷ calls) =
    let (c', res) = release_lock c r p in
    let (c'', rest) = run_locks c' calls in (c'', is_ok res ∷ rest)

-- The same calls on the queues.
abbrev pub set_queue : (ℕ → List ℕ) → ℕ → List ℕ → ℕ → List ℕ
set_queue q r xs j = if j == r then xs else q j

unfoldable pub run_queues : (ℕ → List ℕ) → List LockCall → (ℕ → List ℕ) × List Bool
run_queues q [] = (q, [])
run_queues q (acquire r p ∷ calls) =
    let (q', rest) = run_queues (set_queue q r (enqueue (q r) p)) calls in
    (q', holds (enqueue (q r) p) p ∷ rest)
run_queues q (release r p ∷ calls) =
    let (q', rest) = run_queues (set_queue q r (dequeue (q r) p)) calls in
    (q', holds (q r) p ∷ rest)

queue-lock_entry :
    (c : ControlPlaneManager) (r : ℕ)
    → IsLocks c
    → IsLock (lock_entry c r) × (queue (lock_entry c r) ≡ lock_queue c r)
unfolding lock_entry
queue-lock_entry c r h = ground (arith, h r)

acquire_lock_refines :
    (c : ControlPlaneManager) (r p : ℕ)
    → IsLocks c
    → let (c', res) = acquire_lock c r p in
      let q = enqueue (lock_queue c r) p in
      IsLocks c' × (lock_queue c' ≡ set_queue (lock_queue c) r q) × (is_ok res ≡ holds q p)
unfolding acquire_lock
acquire_lock_refines c r p h =
    let entry = queue-lock_entry c r h in
    let step = acquire_state_refines (lock_entry c r) p entry.0 in
    (
      λ j. ground (arith, step, h j),
      fun_ext λ j. ground (arith, step, entry),
      ground (arith, step, entry),
    )

release_lock_refines :
    (c : ControlPlaneManager) (r p : ℕ)
    → IsLocks c
    → let (c', res) = release_lock c r p in
      let q = lock_queue c r in
      IsLocks c'
      × (lock_queue c' ≡ set_queue (lock_queue c) r (dequeue q p))
      × (is_ok res ≡ holds q p)
unfolding release_lock
release_lock_refines c r p h = elim (Option-cases (c.locks r)) [
  | inl e ↦ (λ j. ground (arith, h j, e), fun_ext λ j. ground (arith, e), ground (arith, e))
  | inr (l, e) ↦
      let step = release_state_refines l p (ground (arith, h r)) in
      (
        λ j. ground (arith, step, h j, e),
        fun_ext λ j. ground (arith, step, e),
        ground (arith, step, e),
      )
]

-- For every sequence of acquire and release calls on a lock table in order (no process twice at a
-- lock, and nobody waiting for a free one), the lock table stays in order and behaves as a first-in
-- first-out queue per resource without repeated processes: the first process of a queue holds the
-- lock, an acquire joins the queue unless the process is in it and succeeds exactly when the
-- process is then first, and a release succeeds exactly for the first process and hands the lock to
-- the next one.
pub run_locks_refines :
    (c : ControlPlaneManager) (calls : List LockCall)
    → IsLocks c
    → IsLocks (run_locks c calls).0
      × (lock_queue (run_locks c calls).0 ≡ (run_queues (lock_queue c) calls).0)
      × ((run_locks c calls).1 ≡ (run_queues (lock_queue c) calls).1)
unfolding run_locks run_queues
run_locks_refines c [] h = (h, refl, refl)
run_locks_refines c (acquire r p ∷ calls) h =
    let step = acquire_lock_refines c r p h in
    let rest = run_locks_refines (acquire_lock c r p).0 calls step.0 in
    (
      rest.0,
      rest.1 ∙ ap (λ q. (run_queues q calls).0) step.1,
      ap₂ ◌∷◌ step.2 (rest.2 ∙ ap (λ q. (run_queues q calls).1) step.1),
    )
run_locks_refines c (release r p ∷ calls) h =
    let step = release_lock_refines c r p h in
    let rest = run_locks_refines (release_lock c r p).0 calls step.0 in
    (
      rest.0,
      rest.1 ∙ ap (λ q. (run_queues q calls).0) step.1,
      ap₂ ◌∷◌ step.2 (rest.2 ∙ ap (λ q. (run_queues q calls).1) step.1),
    )
