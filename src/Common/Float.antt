-- ===== src/Common/Float.antt =====
-- `f64` as the program uses it: conversions, `-`, `/` and comparisons, with the facts of IEEE 754
-- that the proofs rest on. A decimal literal is given in hundredths.
use Prim.Native.Nat.{ℕ, ◌*◌, ◌-◌, ◌/◌, ◌≤◌}
use mathlib.Core.Path.{◌≡◌}
use mathlib.Core.Bool.{Bool, true, false, not}
use native.Mathlib.Omega.{arith}
use virthub.Common.Tests.{ltb, leb}

pub record Float : Type 1 where
  pub Carrier : Type 0
  pub is_nan : Carrier → Bool
  pub literal : ℕ → Carrier
  pub from_usize : ℕ → Carrier
  pub sub : Carrier → Carrier → Carrier
  pub div : Carrier → Carrier → Carrier
  pub ge : Carrier → Carrier → Bool
  pub lt : Carrier → Carrier → Bool
  -- Literals keep their order, and `>=` is transitive.
  pub ge_literal :
      (x : Carrier) (a b : ℕ) → a ≤ b → ge x (literal b) ≡ true → ge x (literal a) ≡ true
  -- `<` is irreflexive and transitive, on NaN as well.
  pub lt_irrefl : (x : Carrier) → lt x x ≡ false
  pub lt_trans : (x y z : Carrier) → lt x y ≡ true → lt y z ≡ true → lt x z ≡ true
  -- Off NaN exactly one of `<` and `>=` holds.
  pub lt_not_ge :
      (x : Carrier) (a : ℕ) → is_nan x ≡ false → lt x (literal a) ≡ not (ge x (literal a))

pub ge_hundredths : (x a b : ℕ) → a ≤ b → leb b x ≡ true → leb a x ≡ true
ge_hundredths x a b h e = ground arith

pub lt_hundredths : (x a : ℕ) → ltb x a ≡ not (leb a x)
lt_hundredths x a = ground arith

pub ltb_irrefl : (x : ℕ) → ltb x x ≡ false
ltb_irrefl x = ground arith

pub ltb_trans : (x y z : ℕ) → ltb x y ≡ true → ltb y z ≡ true → ltb x z ≡ true
ltb_trans x y z h k = ground arith

-- Fixed-point numbers in hundredths: not the program's floats, but a value that meets the laws.
abbrev pub hundredths : Float
hundredths = record {
  Carrier = ℕ;
  is_nan = λ _. false;
  literal = λ n. n;
  from_usize = λ n. n * 100;
  sub = ◌-◌;
  div = λ a b. a * 100 / b;
  ge = λ a b. leb b a;
  lt = ltb;
  ge_literal = ge_hundredths;
  lt_irrefl = ltb_irrefl;
  lt_trans = ltb_trans;
  lt_not_ge = λ x a _. lt_hundredths x a;
}
