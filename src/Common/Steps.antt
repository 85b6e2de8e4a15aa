-- ===== src/Common/Steps.antt =====
-- The addresses that a loop `while curr < end { ..; curr += step }` visits.
use Prim.Native.Nat.{ℕ, ◌+◌, ◌-◌, ◌%◌, ◌≤◌, ◌<◌}
use mathlib.Core.Path.{◌≡◌, ap}
use mathlib.Core.Logic.{◌⊎◌, inl, inr}
use mathlib.Core.Bool.{Bool, true, ◌&&◌}
use native.Mathlib.Nat.{mod-eq-sub-mod, mod-eq_of_lt, zero-mod}
use native.Mathlib.Omega.{arith}
use virthub.Common.Tests.{ltb, leb, ◌==◌, if◌then◌else◌, Bool-cases}

abbrev pub is_unit : (curr end step a : ℕ) → Bool
is_unit curr end step a = leb curr a && ltb a end && (a - curr) % step == 0

rem_cases : (d s : ℕ) → ((d < s) × (d % s ≡ d)) ⊎ ((s ≤ d) × (d % s ≡ (d - s) % s))
rem_cases d s = elim (Bool-cases (ltb d s)) [
  | inl e ↦ inl (ground arith, mod-eq_of_lt (ground arith))
  | inr e ↦ inr (ground arith, mod-eq-sub-mod (ground arith))
]

pub is_unit_next :
    (curr end step a : ℕ)
    → 0 < step
    → curr < end
    → is_unit curr end step a ≡ (if a == curr then true else is_unit (curr + step) end step a)
is_unit_next curr end step a s lt =
    let d = a - curr in
    let shift : d - step ≡ a - (curr + step) = omega arith in
    let away = ap (◌% step) shift in ground (arith, rem_cases d step, away, zero-mod step)
