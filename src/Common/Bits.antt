-- ===== src/Common/Bits.antt =====
-- `|` of disjoint fields and `&` with a mask of low ones, as arithmetic.
-- The native operations stand for a recursion on binary digits with fuel; `or_digit` and
-- `and_digit` are its one step with the fuel gone, and each law below goes from `a / 2` to `a`.
use Prim.Native.Nat.{
  ℕ, zero, suc, ◌+◌, ◌*◌, ◌/◌, ◌%◌, ◌^◌, ◌≤◌, ◌<◌, min, max, bit_and, bit_or, digits,
  bit_and-bitwise, bit_or-bitwise,
}
use mathlib.Core.Path.{◌≡◌, refl, ap}
use native.Mathlib.Nat.{pow-suc, one-le-pow, mod-lt}
use native.Mathlib.Omega.{arith}

-- Any two amounts of fuel that cover `a` give the same digits.
digits_enough :
    (z : ℕ → ℕ) (f : ℕ → ℕ → ℕ) (j k a b : ℕ) → a ≤ j → a ≤ k → digits z f j a b ≡ digits z f k a b
digits_enough z f zero zero zero b p q = refl
digits_enough z f zero zero (suc a) b p q = absurd (omega arith)
digits_enough z f zero (suc k) zero b p q = refl
digits_enough z f zero (suc k) (suc a) b p q = absurd (omega arith)
digits_enough z f (suc j) zero zero b p q = refl
digits_enough z f (suc j) zero (suc a) b p q = absurd (omega arith)
digits_enough z f (suc j) (suc k) zero b p q = refl
digits_enough z f (suc j) (suc k) (suc a) b p q =
    ap (λ (t : ℕ). t * 2 + f (suc a % 2) (b % 2))
      (digits_enough z f j k (suc a / 2) (b / 2) (omega arith) (omega arith))

or_digit : (a b : ℕ) → bit_or a b ≡ bit_or (a / 2) (b / 2) * 2 + max (a % 2) (b % 2)
or_digit zero b = omega (arith, bit_or-bitwise 0 b, bit_or-bitwise 0 (b / 2))
or_digit (suc a) b = omega (
  arith,
  bit_or-bitwise (suc a) b,
  bit_or-bitwise (suc a / 2) (b / 2),
  digits_enough (λ y. y) max a (suc a / 2) (suc a / 2) (b / 2) (omega arith) (omega arith),
)

and_digit : (a b : ℕ) → bit_and a b ≡ bit_and (a / 2) (b / 2) * 2 + min (a % 2) (b % 2)
and_digit zero b = omega (arith, bit_and-bitwise 0 b, bit_and-bitwise 0 (b / 2))
and_digit (suc a) b = omega (
  arith,
  bit_and-bitwise (suc a) b,
  bit_and-bitwise (suc a / 2) (b / 2),
  digits_enough (λ y. 0) min a (suc a / 2) (suc a / 2) (b / 2) (omega arith) (omega arith),
)

and_zero_upto : (n a : ℕ) → a ≤ n → bit_and a 0 ≡ 0
and_zero_upto n zero h = refl
and_zero_upto zero (suc a) h = absurd (omega arith)
and_zero_upto (suc n) (suc a) h =
    omega (arith, and_digit (suc a) 0, and_zero_upto n (suc a / 2) (omega arith))

zero-or : (b : ℕ) → bit_or 0 b ≡ b
zero-or b = bit_or-bitwise 0 b

double_pow : (q k : ℕ) → q * 2 ^ suc k ≡ 2 * (q * 2 ^ k)
double_pow q k = omega (arith, ap (λ (t : ℕ). q * t) (pow-suc 2 k))

-- `lo | (hi << k)` is a sum when `lo` fits `k` bits.
pub or_shifted : (k lo hi : ℕ) → lo < 2 ^ k → bit_or lo (hi * 2 ^ k) ≡ lo + hi * 2 ^ k
or_shifted zero zero hi h = omega (arith, zero-or (hi * 1))
or_shifted zero (suc lo) hi h = absurd (omega arith)
or_shifted (suc k) lo hi h = ground (
  arith,
  or_digit lo (hi * 2 ^ suc k),
  double_pow hi k,
  pow-suc 2 k,
  or_shifted k (lo / 2) hi (omega (arith, pow-suc 2 k)),
)

mod_double : (a p : ℕ) → 0 < p → a % (2 * p) ≡ a / 2 % p * 2 + a % 2
mod_double a p h = grind (arith, mod-lt (a / 2) h)

-- `a & (2 ^ k - 1)` is the remainder by `2 ^ k`.
pub and_ones : (k a m : ℕ) → m + 1 ≡ 2 ^ k → bit_and a m ≡ a % 2 ^ k
and_ones zero a m h =
    let none_set : m ≡ 0 = omega arith in
    rw none_set (omega (arith, and_zero_upto a a (omega arith)))
and_ones (suc k) a m h = ground (
  arith,
  and_digit a m,
  and_ones k (a / 2) (m / 2) (omega (arith, pow-suc 2 k)),
  mod_double a (2 ^ k) (one-le-pow k 2 (omega arith)),
  pow-suc 2 k,
  one-le-pow k 2,
)
