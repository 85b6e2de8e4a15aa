-- ===== src/Precision/Policy/Packing.antt =====
-- The 32-bit layout of the policy word of src/precision/src/policy.rs.
use virthub.Common.{ℕ, ◌+◌, ◌*◌, ◌/◌, ◌%◌, ◌^◌, ◌<◌, ◌≡◌, refl, Bool, if◌then◌else◌, arith}
use virthub.Common.Bits.{or_shifted, and_ones}
use virthub.Precision.Policy.{
  PrecisionLevel, as_u32, from_u8, PackedBlockPolicy, new, from_raw, precision, use_residual,
  head_mask,
}

-- The residual bit as a number.
abbrev pub flag : Bool → ℕ
flag b = if b then 1 else 0

as_u32-lt : (p : PrecisionLevel) → as_u32 p < 4
unfolding as_u32
as_u32-lt p = ground arith

pub from_u8-as_u32 : (p : PrecisionLevel) → from_u8 (as_u32 p) ≡ p
unfolding from_u8 as_u32
from_u8-as_u32 p = ground arith

as_u32-from_u8 : (v : ℕ) → v < 4 → as_u32 (from_u8 v) ≡ v
unfolding from_u8 as_u32
as_u32-from_u8 v h = ground arith

-- The word as a sum of its fields.
pub new_word :
    (p : PrecisionLevel) (r : Bool) (m : ℕ)
    → (new p r m).word ≡ as_u32 p + flag r * 4 + m % 2 ^ 24 * 256
unfolding new
new_word p r m = ground (
  arith,
  as_u32-lt p,
  and_ones 24 m 0xFF_FFFF refl,
  or_shifted 2 (as_u32 p) (flag r) (as_u32-lt p),
  or_shifted 8 (as_u32 p + flag r * 4) (m % 2 ^ 24),
)

-- Packing loses nothing but the mask's bits above 24: the three accessors give back what `new` was
-- given, the word fits 32 bits and its reserved bits 3 to 7 are zero.
pub accessors-new :
    (p : PrecisionLevel) (r : Bool) (m : ℕ)
    → (precision (new p r m) ≡ p)
      × (use_residual (new p r m) ≡ r)
      × (head_mask (new p r m) ≡ m % 2 ^ 24)
      × ((new p r m).word < 2 ^ 32)
      × ((new p r m).word / 2 ^ 3 % 2 ^ 5 ≡ 0)
unfolding precision use_residual head_mask
accessors-new p r m = ground (
  arith,
  new_word p r m,
  as_u32-lt p,
  and_ones 2 (new p r m).word 3 refl,
  and_ones 1 ((new p r m).word / 4) 1 refl,
  and_ones 24 ((new p r m).word / 256) 0xFF_FFFF refl,
  from_u8-as_u32 p,
)

eq_of_word : {a b : PackedBlockPolicy} → a.word ≡ b.word → a ≡ b
eq_of_word e = λ i. record { word = e i }

-- A word of 32 bits whose reserved bits are zero is rebuilt from its three fields.
pub new-accessors :
    (w : ℕ)
    → w < 2 ^ 32
    → w / 2 ^ 3 % 2 ^ 5 ≡ 0
    → new (precision (from_raw w)) (use_residual (from_raw w)) (head_mask (from_raw w)) ≡ from_raw w
unfolding precision use_residual head_mask from_raw
new-accessors w h z =
    let p = precision (from_raw w) in
    let r = use_residual (from_raw w) in
    let m = head_mask (from_raw w) in
    eq_of_word (
      ground (
        arith,
        new_word p r m,
        and_ones 2 w 3 refl,
        and_ones 1 (w / 4) 1 refl,
        and_ones 24 (w / 256) 0xFF_FFFF refl,
        as_u32-from_u8 (w % 4),
      ))
