-- ===== src/Base/Int.antt =====
-- Go's signed integers: the integers, and the wrap-around of 64 bits.
use Prim.Native.Nat.{ℕ, suc, ◌+◌, ◌-◌, ◌*◌, ◌/◌, ◌%◌, ◌≤◌}
use mathlib.Core.Path.{◌≡◌}
use mathlib.Core.Bool.{Bool, true}
use native.Mathlib.Omega.{arith}
use b46_ordering_app_backend.Base.Tests.{ltb, leb, ◌==◌, if◌then◌else◌}

-- `negsuc n` is -(n + 1).
pub data ℤ : Type 0 where
  pos : ℕ → ℤ
  negsuc : ℕ → ℤ

abbrev pub pos_part : ℤ → ℕ
pos_part (pos n) = n
pos_part (negsuc n) = 0

abbrev pub neg_part : ℤ → ℕ
neg_part (pos n) = 0
neg_part (negsuc n) = suc n

-- a - b, as an integer.
abbrev pub sub_ℕ : ℕ → ℕ → ℤ
sub_ℕ a b = if leb b a then pos (a - b) else negsuc (b - a - 1)

infixl 65 ◌+ℤ◌ ◌-ℤ◌
infixl 70 ◌*ℤ◌
abbrev pub ◌+ℤ◌ : ℤ → ℤ → ℤ
a +ℤ b = sub_ℕ (pos_part a + pos_part b) (neg_part a + neg_part b)

abbrev pub ◌-ℤ◌ : ℤ → ℤ → ℤ
a -ℤ b = sub_ℕ (pos_part a + neg_part b) (neg_part a + pos_part b)

abbrev pub ◌*ℤ◌ : ℤ → ℤ → ℤ
a *ℤ b =
    sub_ℕ (pos_part a * pos_part b + neg_part a * neg_part b)
      (pos_part a * neg_part b + neg_part a * pos_part b)

abbrev pub int_lt : ℤ → ℤ → Bool
int_lt a b = ltb (pos_part a + neg_part b) (pos_part b + neg_part a)

abbrev pub int_eq : ℤ → ℤ → Bool
int_eq a b = pos_part a + neg_part b == pos_part b + neg_part a

pub int_eq_iff : (a b : ℤ) → int_eq a b ≡ true → a ≡ b
int_eq_iff a b h = ground arith

pub int_eq_refl : (a : ℤ) → int_eq a a ≡ true
int_eq_refl a = ground arith

abbrev pub u64_mod : ℕ
u64_mod = 18446744073709551616

-- math.MaxInt64.
abbrev pub max_int64 : ℕ
max_int64 = 9223372036854775807

-- The int64 with a given bit pattern.
from_bits : ℕ → ℤ
from_bits m = if leb m max_int64 then pos m else negsuc (u64_mod - 1 - m)

-- What 64 bits keep of an exact result.
unfoldable pub wrap64 : ℤ → ℤ
unfolding from_bits
wrap64 (pos n) = from_bits (n % u64_mod)
wrap64 (negsuc n) = from_bits (u64_mod - 1 - n % u64_mod)

unfoldable pub add64 : ℤ → ℤ → ℤ
add64 a b = wrap64 (a +ℤ b)

unfoldable pub sub64 : ℤ → ℤ → ℤ
sub64 a b = wrap64 (a -ℤ b)

unfoldable pub mul64 : ℤ → ℤ → ℤ
mul64 a b = wrap64 (a *ℤ b)

-- Go's `/` truncates toward zero. A zero divisor panics there; no caller passes one.
unfoldable pub div64 : ℤ → ℤ → ℤ
div64 (pos a) (pos b) = pos (a / b)
div64 (pos a) (negsuc b) = sub_ℕ 0 (a / suc b)
div64 (negsuc a) (pos b) = sub_ℕ 0 (suc a / b)
div64 (negsuc a) (negsuc b) = wrap64 (pos (suc a / suc b))

pub wrap64-small : (n : ℕ) → n ≤ max_int64 → wrap64 (pos n) ≡ pos n
unfolding wrap64
wrap64-small n h = ground arith

pub wrap64-in-range : (z : ℤ) → pos_part z ≤ max_int64 → neg_part z ≤ max_int64 → wrap64 z ≡ z
unfolding wrap64
wrap64-in-range (pos n) h k = ground arith
wrap64-in-range (negsuc n) h k = ground arith

-- Within the range of int64 the operations are exact.
pub add64_exact : (a b : ℕ) → a + b ≤ max_int64 → add64 (pos a) (pos b) ≡ pos (a + b)
unfolding add64
add64_exact a b h = ground (arith, wrap64-small (a + b))

pub sub64_exact : (a b : ℕ) → b ≤ a → a ≤ max_int64 → sub64 (pos a) (pos b) ≡ pos (a - b)
unfolding sub64
sub64_exact a b h k = ground (arith, wrap64-small (a - b))

pub mul64_exact : (a b : ℕ) → a * b ≤ max_int64 → mul64 (pos a) (pos b) ≡ pos (a * b)
unfolding mul64
mul64_exact a b h = ground (arith, wrap64-small (a * b))

-- An integer as a difference of naturals.
pos_part-sub_ℕ : (a b : ℕ) → pos_part (sub_ℕ a b) ≡ a - b
pos_part-sub_ℕ a b = ground arith

neg_part-sub_ℕ : (a b : ℕ) → neg_part (sub_ℕ a b) ≡ b - a
neg_part-sub_ℕ a b = ground arith

sub_ℕ-eq : (a b c d : ℕ) → a + d ≡ c + b → sub_ℕ a b ≡ sub_ℕ c d
sub_ℕ-eq a b c d h = ground arith

pub +ℤ_assoc : (a b c : ℤ) → (a +ℤ b) +ℤ c ≡ a +ℤ (b +ℤ c)
+ℤ_assoc a b c =
    sub_ℕ-eq (pos_part (a +ℤ b) + pos_part c) (neg_part (a +ℤ b) + neg_part c)
      (pos_part a + pos_part (b +ℤ c)) (neg_part a + neg_part (b +ℤ c))
      (omega (
        arith,
        pos_part-sub_ℕ (pos_part a + pos_part b) (neg_part a + neg_part b),
        neg_part-sub_ℕ (pos_part a + pos_part b) (neg_part a + neg_part b),
        pos_part-sub_ℕ (pos_part b + pos_part c) (neg_part b + neg_part c),
        neg_part-sub_ℕ (pos_part b + pos_part c) (neg_part b + neg_part c),
      ))

pub +ℤ-zero : (a : ℤ) → a +ℤ pos 0 ≡ a
+ℤ-zero a = ground arith

pub zero-+ℤ : (a : ℤ) → pos 0 +ℤ a ≡ a
zero-+ℤ a = ground arith

-- What is taken from a stock and booked as a negative movement leaves their difference as it was.
pub sub_moved : (s q m : ℤ) → (s -ℤ q) -ℤ (m +ℤ (pos 0 -ℤ q)) ≡ s -ℤ m
sub_moved s q m =
    let back = pos 0 -ℤ q in
    sub_ℕ-eq (pos_part (s -ℤ q) + neg_part (m +ℤ back)) (neg_part (s -ℤ q) + pos_part (m +ℤ back))
      (pos_part s + neg_part m) (neg_part s + pos_part m)
      (omega (
        arith,
        pos_part-sub_ℕ (pos_part s + neg_part q) (neg_part s + pos_part q),
        neg_part-sub_ℕ (pos_part s + neg_part q) (neg_part s + pos_part q),
        pos_part-sub_ℕ (0 + neg_part q) (0 + pos_part q),
        neg_part-sub_ℕ (0 + neg_part q) (0 + pos_part q),
        pos_part-sub_ℕ (pos_part m + pos_part back) (neg_part m + neg_part back),
        neg_part-sub_ℕ (pos_part m + pos_part back) (neg_part m + neg_part back),
      ))
