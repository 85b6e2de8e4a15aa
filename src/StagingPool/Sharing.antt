-- ===== src/StagingPool/Sharing.antt =====
-- Who holds which slot of the pool of src/store/src/staging_pool.rs.
use virthub.Common.{
  ℕ, zero, suc, ◌+◌, ◌≤◌, ◌<◌, ◌≡◌, refl, ap, sym, subst, ◌∙◌, ◌&&◌, List, [], ◌∷◌, ◌++◌,
  if◌then◌else◌, ltb, leb, ◌==◌, length, length-append, arith, Bool-cases, inl, inr,
}
use virthub.Common.Word.{add64, sub64, u64_mod}
use virthub.Common.Result.{Result, ok, err}
use virthub.StagingPool.{
  StagingMemoryPool, new, push, push_from, pop_from, pop_slot, push_slot, available_slots,
  active_slots,
}

abbrev pub count : ℕ → List ℕ → ℕ
count i [] = 0
count i (x ∷ xs) = (if x == i then 1 else 0) + count i xs

-- One occurrence less.
abbrev pub remove_one : ℕ → List ℕ → List ℕ
remove_one i [] = []
remove_one i (x ∷ xs) = if x == i then xs else x ∷ remove_one i xs

count-append : (i : ℕ) (xs ys : List ℕ) → count i (xs ++ ys) ≡ count i xs + count i ys
count-append i [] ys = omega arith
count-append i (x ∷ xs) ys = omega (arith, count-append i xs ys)

count-remove_one :
    (i j : ℕ) (xs : List ℕ)
    → 0 < count j xs
    → count i (remove_one j xs) + (if j == i then 1 else 0) ≡ count i xs
count-remove_one i j [] h = ground arith
count-remove_one i j (x ∷ xs) h = elim (Bool-cases (x == j)) [
  | inl same ↦ ground (arith, same)
  | inr other ↦ ground (arith, other, count-remove_one i j xs (ground (arith, other)))
]

length-remove_one :
    (j : ℕ) (xs : List ℕ) → 0 < count j xs → length (remove_one j xs) + 1 ≡ length xs
length-remove_one j [] h = ground arith
length-remove_one j (x ∷ xs) h = elim (Bool-cases (x == j)) [
  | inl same ↦ ground (arith, same)
  | inr other ↦ ground (arith, other, length-remove_one j xs (ground (arith, other)))
]

-- The pool and the slots that its clients hold. A client gives back only a slot it holds.
pub record Shared : Type 0 where
  pub pool : StagingMemoryPool
  pub held : List ℕ

pub data Call : Type 0 where
  takes : Call
  returns : ℕ → Call

unfoldable pub step : Shared → Call → Shared
step s takes =
    let (pool, popped) = pop_slot s.pool in
    elim popped [
      | err _ ↦ record { pool = pool; held = s.held }
      | ok slot ↦ record { pool = pool; held = slot.slot_idx ∷ s.held }
    ]
step s (returns i) =
    if ltb 0 (count i s.held)
    then record { pool = (push_slot s.pool i).0; held = remove_one i s.held }
    else s

unfoldable pub run : Shared → List Call → Shared
unfolding step
run s [] = s
run s (call ∷ calls) = run (step s call) calls

-- Every slot is free or held, and only once; the counter counts those held.
pub record IsShared (s : Shared) : Type 0 where
  pub once :
      (i : ℕ)
      → count i s.pool.free_slots + count i s.held ≡ (if ltb i s.pool.num_slots then 1 else 0)
  pub total : length s.pool.free_slots + length s.held ≡ s.pool.num_slots
  pub counted : s.pool.active_popped_count ≡ length s.held
  pub bounded : s.pool.num_slots < u64_mod

takes_none : (s : Shared) → s.pool.free_slots ≡ [] → step s takes ≡ s
unfolding step pop_slot pop_from
takes_none s e = ground (arith, e)

-- What taking the slot `i` from the head of the queue leaves.
abbrev taken : Shared → ℕ → List ℕ → Shared
taken s i rest = record {
  pool = record (s.pool) {
    free_slots = rest;
    active_popped_count = add64 s.pool.active_popped_count 1;
  };
  held = i ∷ s.held;
}

takes_some :
    (s : Shared) (i : ℕ) (rest : List ℕ)
    → s.pool.free_slots ≡ i ∷ rest
    → step s takes ≡ taken s i rest
unfolding step pop_slot pop_from
takes_some s i rest e = ground (arith, e)

takes-IsShared :
    (s : Shared) (free : List ℕ) → s.pool.free_slots ≡ free → IsShared s → IsShared (step s takes)
takes-IsShared s [] e h = subst IsShared (sym (takes_none s e)) h
takes-IsShared s (i ∷ rest) e h = subst IsShared (sym (takes_some s i rest e)) record {
  once = λ j. ground (arith, h.once j, ap (count j) e);
  total = omega (arith, h.total, ap length e);
  counted = ground (arith, h.counted, h.total, h.bounded, ap length e);
  bounded = h.bounded;
}

count_le_length : (i : ℕ) (xs : List ℕ) → count i xs ≤ length xs
count_le_length i [] = omega arith
count_le_length i (x ∷ xs) = ground (arith, count_le_length i xs)

abbrev returned : Shared → ℕ → Shared
returned s i = record {
  pool = record (s.pool) {
    free_slots = s.pool.free_slots ++ (i ∷ []);
    active_popped_count = sub64 s.pool.active_popped_count 1;
  };
  held = remove_one i s.held;
}

returns_held :
    (s : Shared) (i : ℕ) → IsShared s → 0 < count i s.held → step s (returns i) ≡ returned s i
unfolding step push_slot push
returns_held s i h held =
    let valid : i < s.pool.num_slots = ground (arith, h.once i, held) in
    let room : length s.pool.free_slots < s.pool.num_slots =
      omega (arith, h.total, count_le_length i s.held, held) in
    ground (arith, valid, room, held)

returns-IsShared : (s : Shared) (i : ℕ) → IsShared s → IsShared (step s (returns i))
unfolding step
returns-IsShared s i h = elim (Bool-cases (ltb 0 (count i s.held))) [
  | inr other ↦ subst IsShared (ground (arith, other)) h
  | inl mine ↦
      let held : 0 < count i s.held = ground (arith, mine) in
      let fewer = length-remove_one i s.held held in
      subst IsShared (sym (returns_held s i h held)) record {
        once = λ j. omega (
          arith,
          h.once j,
          count-append j s.pool.free_slots (i ∷ []),
          count-remove_one j i s.held held,
        );
        total = omega (arith, h.total, length-append s.pool.free_slots (i ∷ []), fewer);
        counted = ground (arith, h.counted, h.total, h.bounded, fewer);
        bounded = h.bounded;
      }
]

run-IsShared : (s : Shared) (calls : List Call) → IsShared s → IsShared (run s calls)
unfolding run
run-IsShared s [] h = h
run-IsShared s (takes ∷ calls) h =
    run-IsShared (step s takes) calls (takes-IsShared s s.pool.free_slots refl h)
run-IsShared s (returns i ∷ calls) h =
    run-IsShared (step s (returns i)) calls (returns-IsShared s i h)

-- The queue of a new pool holds each index once.
push_from-count :
    (capacity left idx : ℕ) (xs : List ℕ)
    → length xs + left ≤ capacity
    → (i : ℕ)
    → count i (push_from capacity left idx xs)
      ≡ count i xs + (if leb idx i && ltb i (idx + left) then 1 else 0)
unfolding push_from push
push_from-count capacity zero idx xs room i = ground arith
push_from-count capacity (suc left) idx xs room i =
    let rest =
      push_from-count capacity left (idx + 1) (xs ++ (idx ∷ []))
        (omega (arith, length-append xs (idx ∷ []))) i in
    ground (arith, rest, count-append i xs (idx ∷ []))

push_from-length :
    (capacity left idx : ℕ) (xs : List ℕ)
    → length xs + left ≤ capacity
    → length (push_from capacity left idx xs) ≡ length xs + left
unfolding push_from push
push_from-length capacity zero idx xs room = omega arith
push_from-length capacity (suc left) idx xs room =
    let more = length-append xs (idx ∷ []) in
    let rest = push_from-length capacity left (idx + 1) (xs ++ (idx ∷ [])) (omega (arith, more)) in
    ground (arith, rest, more)

new_lem :
    (mmap : ℕ → Result ℕ ℕ) (num_slots size node : ℕ) (p : StagingMemoryPool)
    → new mmap num_slots size node ≡ ok p
    → (p.num_slots ≡ num_slots)
      × (p.free_slots ≡ push_from num_slots num_slots 0 [])
      × (p.active_popped_count ≡ 0)
unfolding new
new_lem mmap num_slots size node p made = ground (arith, made)

new-IsShared :
    (mmap : ℕ → Result ℕ ℕ) (num_slots size node : ℕ) (p : StagingMemoryPool)
    → num_slots < u64_mod
    → new mmap num_slots size node ≡ ok p
    → IsShared (record { pool = p; held = [] })
new-IsShared mmap num_slots size node p small made =
    let (slots, free, none_out) = new_lem mmap num_slots size node p made in
    record {
      once = λ i. ground (
        arith,
        slots,
        ap (count i) free,
        push_from-count num_slots num_slots 0 [] (omega arith) i,
      );
      total =
          omega
            (arith, slots, ap length free, push_from-length num_slots num_slots 0 [] (omega arith));
      counted = none_out;
      bounded = omega (arith, slots, small);
    }

takes-num_slots :
    (s : Shared) (free : List ℕ)
    → s.pool.free_slots ≡ free
    → (step s takes).pool.num_slots ≡ s.pool.num_slots
takes-num_slots s [] e = ap (λ x. x.pool.num_slots) (takes_none s e)
takes-num_slots s (i ∷ rest) e = ap (λ x. x.pool.num_slots) (takes_some s i rest e)

run-num_slots : (s : Shared) (calls : List Call) → (run s calls).pool.num_slots ≡ s.pool.num_slots
unfolding run step push_slot
run-num_slots s [] = refl
run-num_slots s (takes ∷ calls) =
    run-num_slots (step s takes) calls ∙ takes-num_slots s s.pool.free_slots refl
run-num_slots s (returns i ∷ calls) = run-num_slots (step s (returns i)) calls ∙ ground arith

-- Whatever the clients of a new pool do, as long as each returns only slots it holds: every slot below the pool's
-- size is either free or held, and by one holder only, the count of active slots is that of the held ones, and
-- the available and the active slots make up the pool.
pub run_partitions :
    (mmap : ℕ → Result ℕ ℕ) (num_slots size node : ℕ) (p : StagingMemoryPool) (calls : List Call)
    (i : ℕ)
    → num_slots < u64_mod
    → new mmap num_slots size node ≡ ok p
    → let s = run (record { pool = p; held = [] }) calls in
      (count i s.pool.free_slots + count i s.held ≡ (if ltb i num_slots then 1 else 0))
      × (active_slots s.pool ≡ length s.held)
      × (available_slots s.pool + active_slots s.pool ≡ num_slots)
run_partitions mmap num_slots size node p calls i small made =
    let start : Shared = record { pool = p; held = [] } in
    let h = run-IsShared start calls (new-IsShared mmap num_slots size node p small made) in
    let size = run-num_slots start calls ∙ (new_lem mmap num_slots size node p made).0 in
    (ground (arith, h.once i, size), h.counted, omega (arith, h.total, h.counted, size))
