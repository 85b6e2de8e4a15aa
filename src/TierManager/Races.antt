-- ===== src/TierManager/Races.antt =====
-- Interleavings of the two steps of `try_allocate` of src/store/src/tier_manager.rs.
use virthub.Common.{ℕ, ◌+◌, ◌≤◌, ◌<◌, ◌≡◌, Bool, true, false, List, [], ◌∷◌, if◌then◌else◌, arith}
use virthub.TierManager.{
  StorageTier, dram, ssd, vram, StorageTierManager, max_capacity_bytes, new, get_usage, set_usage,
  allocate, deallocate, can_allocate, try_allocate,
}

-- Calls one after another.
pub data Call : Type 0 where
  tries frees : StorageTier → ℕ → Call

unfoldable pub call : StorageTierManager → Call → StorageTierManager
call s (tries tier n) = (try_allocate s tier n).0
call s (frees tier n) = deallocate s tier n

unfoldable pub run : StorageTierManager → List Call → StorageTierManager
unfolding call
run s [] = s
run s (c ∷ cs) = run (call s c) cs

IsWithin : StorageTierManager → Type 0
IsWithin s =
    (s.dram_used_bytes ≤ max_capacity_bytes dram)
    × (s.ssd_used_bytes ≤ max_capacity_bytes ssd)
    × (s.vram_used_bytes ≤ max_capacity_bytes vram)

call-IsWithin : (s : StorageTierManager) (c : Call) → IsWithin s → IsWithin (call s c)
unfolding call IsWithin try_allocate can_allocate allocate deallocate get_usage set_usage
    max_capacity_bytes
call-IsWithin s (tries dram n) h = ground (arith, h)
call-IsWithin s (tries ssd n) h = ground (arith, h)
call-IsWithin s (tries vram n) h = ground (arith, h)
call-IsWithin s (frees dram n) h = ground (arith, h)
call-IsWithin s (frees ssd n) h = ground (arith, h)
call-IsWithin s (frees vram n) h = ground (arith, h)

run-IsWithin : (s : StorageTierManager) (cs : List Call) → IsWithin s → IsWithin (run s cs)
unfolding run
run-IsWithin s [] h = h
run-IsWithin s (c ∷ cs) h = run-IsWithin (call s c) cs (call-IsWithin s c h)

-- Calls of `try_allocate` and `deallocate` one after another never take a tier beyond its capacity.
pub run_bounded :
    (cs : List Call) (tier : StorageTier) → get_usage (run new cs) tier ≤ max_capacity_bytes tier
unfolding get_usage new IsWithin
run_bounded cs dram = (run-IsWithin new cs (omega arith, omega arith, omega arith)).0
run_bounded cs ssd = (run-IsWithin new cs (omega arith, omega arith, omega arith)).1
run_bounded cs vram = (run-IsWithin new cs (omega arith, omega arith, omega arith)).2

-- Where a call of `try_allocate` stands: before its check, before its addition, or back with its
-- result.
pub data Allocating : Type 0 where
  checks adds : StorageTier → ℕ → Allocating
  returned : Bool → Allocating

-- One step of a call: `try_allocate` holds no lock between its check and its addition.
unfoldable pub advance : StorageTierManager → Allocating → StorageTierManager × Allocating
advance s (checks tier n) = (s, if can_allocate s tier n then adds tier n else returned false)
advance s (adds tier n) = (allocate s tier n, returned true)
advance s (returned b) = (s, returned b)

-- Two threads, each in a call of its own.
pub record Threads : Type 0 where
  pub manager : StorageTierManager
  pub first : Allocating
  pub second : Allocating

-- A schedule names the thread that takes the next step: the first on `true`.
unfoldable pub interleave : Threads → List Bool → Threads
unfolding advance
interleave t [] = t
interleave t (true ∷ turns) =
    let (s', a') = advance t.manager t.first in
    interleave (record { manager = s'; first = a'; second = t.second }) turns
interleave t (false ∷ turns) =
    let (s', a') = advance t.manager t.second in
    interleave (record { manager = s'; first = t.first; second = a' }) turns

-- Two threads that are about to allocate from the same tier.
abbrev pub contending : StorageTierManager → StorageTier → ℕ → ℕ → Threads
contending s tier a b = record { manager = s; first = checks tier a; second = checks tier b }

-- What two calls of `try_allocate` come to, one after the other.
abbrev pub in_sequence : StorageTierManager → StorageTier → ℕ → ℕ → StorageTierManager × Bool × Bool
in_sequence s tier a b =
    let (s1, r1) = try_allocate s tier a in let (s2, r2) = try_allocate s1 tier b in (s2, r1, r2)

-- Without another step in between, the steps of a call are a call of `try_allocate`.
interleave-in_sequence :
    (s : StorageTierManager) (tier : StorageTier) (a b : ℕ)
    → let (s', r1, r2) = in_sequence s tier a b in
      interleave (contending s tier a b) (true ∷ true ∷ false ∷ false ∷ [])
      ≡ record { manager = s'; first = returned r1; second = returned r2 }
unfolding interleave try_allocate
interleave-in_sequence s tier a b = ground arith

-- Calls of `try_allocate` do not act as one step each. Of two allocations in a tier that fit one by one and not
-- together, calls one after the other grant the first and refuse the second, in either order, and stay
-- within the capacity; but when the two threads take turns, both calls return that they have
-- allocated, and the tier ends beyond its capacity.
pub allocate_race :
    (s : StorageTierManager) (tier : StorageTier) (a b : ℕ)
    → get_usage s tier + a ≤ max_capacity_bytes tier
    → get_usage s tier + b ≤ max_capacity_bytes tier
    → max_capacity_bytes tier < get_usage s tier + a + b
    → let ab = in_sequence s tier a b in
      let ba = in_sequence s tier b a in
      let t = interleave (contending s tier a b) (true ∷ false ∷ true ∷ false ∷ []) in
      (ab.1 ≡ true)
      × (ab.2 ≡ false)
      × (get_usage ab.0 tier ≤ max_capacity_bytes tier)
      × (ba.1 ≡ true)
      × (ba.2 ≡ false)
      × (get_usage ba.0 tier ≤ max_capacity_bytes tier)
      × (t.first ≡ returned true)
      × (t.second ≡ returned true)
      × (max_capacity_bytes tier < get_usage t.manager tier)
unfolding interleave try_allocate can_allocate allocate get_usage set_usage max_capacity_bytes
allocate_race s dram a b ha hb over = ground (arith, ha, hb, over)
allocate_race s ssd a b ha hb over = ground (arith, ha, hb, over)
allocate_race s vram a b ha hb over = ground (arith, ha, hb, over)
