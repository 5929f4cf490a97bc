-- ===== src/Prelude/Int.antt =====
-- Go's `int` and `int64`: integers over the native numbers, and the wrap to 64 bits.
use Prim.Native.Nat.{ℕ, suc, ◌+◌, ◌-◌, ◌%◌, ◌≤◌, ◌<◌}
use mathlib.Core.Path.{◌≡◌}
use mathlib.Core.Logic.{◌↔◌, ◌⊎◌, inl, inr}
use mathlib.Core.Bool.{Bool, true, false}
use native.Mathlib.Omega.{arith}
use kite_mcp_riskguard.Prelude.Tests.{ltb, leb, eqb, if◌then◌else◌, Bool-cases}

-- `negsuc n` is -(n + 1).
pub data ℤ : Type 0 where
  pos : ℕ → ℤ
  negsuc : ℕ → ℤ

abbrev pub pos_part : ℤ → ℕ
pos_part (pos n) = n
pos_part (negsuc n) = 0

abbrev pub neg_part : ℤ → ℕ
neg_part (pos n) = 0
neg_part (negsuc n) = suc n

-- a - b, as an integer.
abbrev pub sub_ℕ : ℕ → ℕ → ℤ
sub_ℕ a b = if leb b a then pos (a - b) else negsuc (b - a - 1)

infixl 65 ◌+ℤ◌
infix 50 ◌≤ℤ◌ ◌<ℤ◌
unfoldable pub ◌+ℤ◌ : ℤ → ℤ → ℤ
a +ℤ b = sub_ℕ (pos_part a + pos_part b) (neg_part a + neg_part b)

abbrev pub neg_ℤ : ℤ → ℤ
neg_ℤ a = sub_ℕ (neg_part a) (pos_part a)

abbrev pub ◌≤ℤ◌ : ℤ → ℤ → Type 0
a ≤ℤ b = pos_part a + neg_part b ≤ pos_part b + neg_part a

abbrev pub ◌<ℤ◌ : ℤ → ℤ → Type 0
a <ℤ b = pos_part a + neg_part b < pos_part b + neg_part a

abbrev pub ltb_ℤ : ℤ → ℤ → Bool
ltb_ℤ a b = ltb (pos_part a + neg_part b) (pos_part b + neg_part a)

abbrev pub leb_ℤ : ℤ → ℤ → Bool
leb_ℤ a b = leb (pos_part a + neg_part b) (pos_part b + neg_part a)

abbrev pub eqb_ℤ : ℤ → ℤ → Bool
eqb_ℤ (pos m) (pos n) = eqb m n
eqb_ℤ (negsuc m) (negsuc n) = eqb m n
eqb_ℤ _ _ = false

pub eqb_ℤ_iff : (a b : ℤ) → (eqb_ℤ a b ≡ true) ↔ (a ≡ b)
eqb_ℤ_iff (pos m) (pos n) = ground arith
eqb_ℤ_iff (pos m) (negsuc n) = ground arith
eqb_ℤ_iff (negsuc m) (pos n) = ground arith
eqb_ℤ_iff (negsuc m) (negsuc n) = ground arith

abbrev pub two_63 : ℕ
two_63 = 9223372036854775808

abbrev pub two_64 : ℕ
two_64 = 18446744073709551616

-- The 64 bits of an integer, as a number.
abbrev pub bits64 : ℤ → ℕ
bits64 (pos n) = n % two_64
bits64 (negsuc n) = two_64 - 1 - n % two_64

-- The value that a 64-bit signed integer keeps of a result: two's complement.
unfoldable pub int64 : ℤ → ℤ
int64 z = let m = bits64 z in if ltb m two_63 then pos m else negsuc (two_64 - 1 - m)

-- An integer in the range of `int64` is kept.
pub int64_small : (z : ℤ) → negsuc (two_63 - 1) ≤ℤ z → z <ℤ pos two_63 → int64 z ≡ z
unfolding int64
int64_small (pos n) lo hi = ground arith
int64_small (negsuc n) lo hi = ground arith

pub ℤ_compare : (a b : ℤ) → ((a <ℤ b) ⊎ (a ≡ b)) ⊎ (b <ℤ a)
ℤ_compare a b = elim (Bool-cases (ltb_ℤ a b)) [
  | inl less ↦ inl (inl (ground arith))
  | inr not_less ↦ (elim (Bool-cases (ltb_ℤ b a)) [
    | inl more ↦ inr (ground arith)
    | inr not_more ↦ inl (inr (ground arith))
  ])
]
