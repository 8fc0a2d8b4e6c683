-- ===== src/Prelude/Ints.antt =====
-- Signed integers (`int`, `time.Duration`), with the orders that the code tests.
use Prim.Native.Nat.{ℕ, zero, suc, ◌+◌, ◌-◌, ◌≤◌, ◌<◌}
use mathlib.Core.Path.{◌≡◌}
use native.Mathlib.Omega.{arith}
use mathlib.Core.Bool.{Bool, true, false}
use agentops_open_course.Prelude.Tests.{◌==◌, ltb, leb, if◌then◌else◌}

-- `negsuc n` is -(n + 1).
pub data ℤ : Type 0 where
  pos : ℕ → ℤ
  negsuc : ℕ → ℤ

abbrev pub pos_part : ℤ → ℕ
pos_part (pos n) = n
pos_part (negsuc n) = 0

abbrev pub neg_part : ℤ → ℕ
neg_part (pos n) = 0
neg_part (negsuc n) = suc n

-- a - b on numbers, as an integer.
abbrev pub sub_ℕ : ℕ → ℕ → ℤ
sub_ℕ a b = if leb b a then pos (a - b) else negsuc (b - a - 1)

infix 50 ◌≤ℤ◌ ◌<ℤ◌
abbrev pub ◌≤ℤ◌ : ℤ → ℤ → Type 0
a ≤ℤ b = pos_part a + neg_part b ≤ pos_part b + neg_part a

abbrev pub ◌<ℤ◌ : ℤ → ℤ → Type 0
a <ℤ b = pos_part a + neg_part b < pos_part b + neg_part a

abbrev pub ltb_ℤ : ℤ → ℤ → Bool
ltb_ℤ a b = ltb (pos_part a + neg_part b) (pos_part b + neg_part a)

abbrev pub leb_ℤ : ℤ → ℤ → Bool
leb_ℤ a b = leb (pos_part a + neg_part b) (pos_part b + neg_part a)

abbrev pub eq_ℤ : ℤ → ℤ → Bool
eq_ℤ (pos a) (pos b) = a == b
eq_ℤ (negsuc a) (negsuc b) = a == b
eq_ℤ _ _ = false

pub eq_ℤ-true : (a b : ℤ) → eq_ℤ a b ≡ true → a ≡ b
eq_ℤ-true (pos a) (pos b) h = ground (arith, h)
eq_ℤ-true (negsuc a) (negsuc b) h = ground (arith, h)
eq_ℤ-true (pos a) (negsuc b) h = ground (arith, h)
eq_ℤ-true (negsuc a) (pos b) h = ground (arith, h)

pub eq_ℤ-self : (a : ℤ) → eq_ℤ a a ≡ true
eq_ℤ-self (pos a) = ground arith
eq_ℤ-self (negsuc a) = ground arith

-- The largest `int64`, 2^63 - 1.
abbrev pub max_int64 : ℕ
max_int64 = 0x7fff_ffff_ffff_ffff

-- `x++` on an `int` of 64 bits: the largest value wraps to the smallest.
abbrev pub inc_int64 : ℤ → ℤ
inc_int64 (pos n) = if ltb n max_int64 then pos (n + 1) else negsuc max_int64
inc_int64 (negsuc zero) = pos 0
inc_int64 (negsuc (suc n)) = negsuc n
