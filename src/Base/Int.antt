-- ===== src/Base/Int.antt =====
-- Signed integers over the native numbers: Go's `int`, `int32` and durations.
use Prim.Native.Nat.{ℕ, suc, ◌+◌, ◌-◌, ◌%◌}
use mathlib.Core.Bool.{Bool, true}
use mathlib.Core.Path.{◌≡◌}
use native.Mathlib.Omega.{arith}
use orchestration_service.Base.Tests.{ltb, leb, ◌==◌, if◌then◌else◌}

-- `negsuc n` is -(n + 1).
pub data ℤ : Type 0 where
  pos : ℕ → ℤ
  negsuc : ℕ → ℤ

abbrev pub pos_part : ℤ → ℕ
pos_part (pos n) = n
pos_part (negsuc _) = 0

abbrev pub neg_part : ℤ → ℕ
neg_part (pos _) = 0
neg_part (negsuc n) = suc n

abbrev pub sub_ℕ : ℕ → ℕ → ℤ
sub_ℕ a b = if leb b a then pos (a - b) else negsuc (b - a - 1)

infixl 65 ◌+ℤ◌ ◌-ℤ◌
abbrev pub ◌+ℤ◌ : ℤ → ℤ → ℤ
a +ℤ b = sub_ℕ (pos_part a + pos_part b) (neg_part a + neg_part b)

abbrev pub ◌-ℤ◌ : ℤ → ℤ → ℤ
a -ℤ b = sub_ℕ (pos_part a + neg_part b) (neg_part a + pos_part b)

abbrev pub ltb_ℤ : ℤ → ℤ → Bool
ltb_ℤ a b = ltb (pos_part a + neg_part b) (pos_part b + neg_part a)

abbrev pub leb_ℤ : ℤ → ℤ → Bool
leb_ℤ a b = leb (pos_part a + neg_part b) (pos_part b + neg_part a)

abbrev pub eq_ℤ : ℤ → ℤ → Bool
eq_ℤ a b = pos_part a + neg_part b == pos_part b + neg_part a

pub eq_ℤ→eq : (a b : ℤ) → eq_ℤ a b ≡ true → a ≡ b
eq_ℤ→eq a b h = ground arith

pub eq_ℤ_self : (a : ℤ) → eq_ℤ a a ≡ true
eq_ℤ_self a = ground arith

-- Go's conversion `int32(z)`: the value modulo 2 ^ 32, from -2 ^ 31 on.
abbrev pub to_int32 : ℤ → ℤ
to_int32 z =
    sub_ℕ ((pos_part z + (4294967296 - neg_part z % 4294967296) + 2147483648) % 4294967296)
      2147483648

-- `z++` on a 64-bit int.
abbrev pub increment : ℤ → ℤ
increment z = if eq_ℤ z (pos 9223372036854775807) then negsuc 9223372036854775807 else z +ℤ pos 1

-- An int64 sum or product that wraps.
abbrev pub to_int64 : ℤ → ℤ
to_int64 z =
    sub_ℕ
      ((pos_part z
          + (18446744073709551616 - neg_part z % 18446744073709551616)
          + 9223372036854775808)
        % 18446744073709551616)
      9223372036854775808
