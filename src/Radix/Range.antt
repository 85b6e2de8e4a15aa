-- ===== src/Radix/Range.antt =====
-- The range query of src/index/src/radix_tree.rs.
use virthub.Common.{
  ℕ, zero, suc, ◌+◌, ◌*◌, ◌<◌, ◌≤◌, ◌≡◌, ◌↔◌, ◌⊎◌, refl, ap, ap₂, ◌∙◌, sym, true, false, some, List,
  [], ◌∷◌, ltb, ◌==◌, In, arith, Bool-cases, inl, inr,
}
use native.Mathlib.Nat.{suc-mul}
use virthub.Common.Steps.{is_unit, is_unit_next}
use virthub.Common.Word.{add64, u64_mod}
use virthub.Common.Result.{Result, ok, err}
use virthub.Radix.{ConcurrentRadixTree, RadixLeafValue, RadixTreeError, lookup, lookup_range}

-- The list holds the mapped addresses of the range, each with its value, and nothing else.
abbrev pub Reports : ConcurrentRadixTree → (curr end step : ℕ) → List (ℕ × RadixLeafValue) → Type 0
Reports t curr end step xs =
    (a : ℕ) (v : RadixLeafValue)
    → In (a, v) xs ↔ ((is_unit curr end step a ≡ true) × (lookup t a ≡ ok v))

Result-cases :
    (r : Result RadixTreeError RadixLeafValue)
    → ((e : RadixTreeError) × (r ≡ err e)) ⊎ ((v : RadixLeafValue) × (r ≡ ok v))
Result-cases (err e) = inl (e, refl)
Result-cases (ok v) = inr (v, refl)

ok_injective :
    {v w : RadixLeafValue} (r : Result RadixTreeError RadixLeafValue) → r ≡ ok v → r ≡ ok w → v ≡ w
ok_injective r h k = ground (arith, h, k)

Reports-here :
    (t : ConcurrentRadixTree) (curr end step : ℕ) (xs : List (ℕ × RadixLeafValue))
    → 0 < step
    → curr < end
    → Reports t (curr + step) end step xs
    → Reports t curr end step (elim (lookup t curr) [ err _ ↦ xs | ok v ↦ (curr, v) ∷ xs ])
Reports-here t curr end step xs s lt h a v =
    let next = is_unit_next curr end step a s lt in
    let after : is_unit (curr + step) end step curr ≡ false = ground arith in
    elim (Result-cases (lookup t curr)) [
      | inl (e, z) ↦ elim (Bool-cases (a == curr)) [
        | inl same ↦
            let there : a ≡ curr = ground (arith, same) in
            ground (arith, z, same, next, after, h a v, ap (lookup t) there)
        | inr other ↦ ground (arith, z, other, next, h a v)
      ]
      | inr (w, z) ↦ rw z (
        λ m. elim m [
          | inl p ↦
              let there : curr ≡ a = ap (λ q. q.0) p in
              let value : w ≡ v = ap (λ q. q.1) p in
              (ground (arith, next, there), sym (ap (lookup t) there) ∙ z ∙ ap ok value)
          | inr i ↦ ground (arith, next, (h a v).0 i)
        ],
        λ r. elim (Bool-cases (a == curr)) [
          | inl same ↦
              let there : a ≡ curr = ground (arith, same) in
              let value = ok_injective (lookup t curr) z (sym (ap (lookup t) there) ∙ r.1) in
              inl (ap₂ (λ x y. (x, y)) (sym there) value)
          | inr other ↦ inr ((h a v).1 (ground (arith, next, other, r.0), r.1))
        ],
      )
    ]

-- A range query with a positive step whose addresses do not wrap ends, given a round for each step, and
-- returns exactly the mapped addresses of the range, a whole number of steps from its start, with their values.
pub lookup_range-Reports :
    (t : ConcurrentRadixTree) (fuel curr end step : ℕ)
    → 0 < step
    → end + step < u64_mod
    → end ≤ curr + fuel * step
    → (xs : List (ℕ × RadixLeafValue)) × (lookup_range t fuel curr end step ≡ some xs)
      × Reports t curr end step xs
unfolding lookup_range
lookup_range-Reports t zero curr end step s w h = ([], ground arith, λ a v. ground arith)
lookup_range-Reports t (suc fuel) curr end step s w h = elim (Bool-cases (ltb curr end)) [
  | inr out ↦ ([], ground (arith, out), λ a v. ground arith)
  | inl inside ↦
      let rest =
        lookup_range-Reports t fuel (curr + step) end step s w (omega (arith, suc-mul fuel step)) in
      let nowrap : add64 curr step ≡ curr + step = ground arith in
      (
        _,
        ground (arith, inside, ap (λ k. lookup_range t fuel k end step) nowrap ∙ rest.1),
        Reports-here t curr end step rest.0 s (ground arith) rest.2,
      )
]
