-- ===== src/Base/Int.antt =====
-- Signed integers over the native numbers, and the machine integers of the C interface: a `c_int` is
-- an integer between `int_min` and `int_max`, and its arithmetic wraps by `wrap_int`. Orders go
-- through the two parts of an integer, which are numbers that `omega` reads.
use Prim.Native.Nat.{ℕ, suc, ◌+◌, ◌-◌, ◌%◌, ◌≤◌, ◌<◌}
use mathlib.Core.Path.{◌≡◌, refl}
use mathlib.Core.Bool.{Bool, true}
use mathlib.Core.Logic.{◌⊎◌, inl, inr, ◌↔◌}
use native.Mathlib.Omega.{arith}
use close_fds.Base.Tests.{ltb, leb, ◌==◌, if◌then◌else◌}

-- `negsuc n` is -(n + 1).
pub data ℤ : Type 0 where
  pos : ℕ → ℤ
  negsuc : ℕ → ℤ

abbrev pub pos_part : ℤ → ℕ
pos_part (pos n) = n
pos_part (negsuc n) = 0

abbrev pub neg_part : ℤ → ℕ
neg_part (pos n) = 0
neg_part (negsuc n) = suc n

abbrev pub sub_ℕ : ℕ → ℕ → ℤ
sub_ℕ a b = if leb b a then pos (a - b) else negsuc (b - a - 1)

infixl 65 ◌+ℤ◌ ◌-ℤ◌
infix 50 ◌≤ℤ◌ ◌<ℤ◌
unfoldable pub ◌+ℤ◌ : ℤ → ℤ → ℤ
a +ℤ b = sub_ℕ (pos_part a + pos_part b) (neg_part a + neg_part b)

unfoldable pub ◌-ℤ◌ : ℤ → ℤ → ℤ
a -ℤ b = sub_ℕ (pos_part a + neg_part b) (neg_part a + pos_part b)

abbrev pub ◌≤ℤ◌ : ℤ → ℤ → Type 0
a ≤ℤ b = pos_part a + neg_part b ≤ pos_part b + neg_part a

abbrev pub ◌<ℤ◌ : ℤ → ℤ → Type 0
a <ℤ b = pos_part a + neg_part b < pos_part b + neg_part a

abbrev pub ltb_ℤ : ℤ → ℤ → Bool
ltb_ℤ a b = ltb (pos_part a + neg_part b) (pos_part b + neg_part a)

abbrev pub leb_ℤ : ℤ → ℤ → Bool
leb_ℤ a b = leb (pos_part a + neg_part b) (pos_part b + neg_part a)

abbrev pub eqb_ℤ : ℤ → ℤ → Bool
eqb_ℤ a b = pos_part a + neg_part b == pos_part b + neg_part a

pub eq_of_parts : (a b : ℤ) → pos_part a + neg_part b ≡ pos_part b + neg_part a → a ≡ b
eq_of_parts a b h = ground arith

pub eqb_ℤ-iff : (a b : ℤ) → (eqb_ℤ a b ≡ true) ↔ (a ≡ b)
eqb_ℤ-iff a b = (λ h. ground arith, λ h. ground arith)

pub +ℤ_parts :
    (a b : ℤ)
    → pos_part (a +ℤ b) + neg_part a + neg_part b ≡ neg_part (a +ℤ b) + pos_part a + pos_part b
unfolding ◌+ℤ◌
+ℤ_parts a b = ground arith

pub -ℤ_parts :
    (a b : ℤ)
    → pos_part (a -ℤ b) + neg_part a + pos_part b ≡ neg_part (a -ℤ b) + pos_part a + neg_part b
unfolding ◌-ℤ◌
-ℤ_parts a b = ground arith

pub ℤ-trichotomy : (a b : ℤ) → (a <ℤ b) ⊎ (a ≡ b) ⊎ (b <ℤ a)
ℤ-trichotomy a b = ground (arith, eq_of_parts a b)

-- `libc::c_int::MIN` and `libc::c_int::MAX`, and `libc::c_uint::MAX`.
abbrev pub int_min : ℤ
int_min = negsuc 2147483647

abbrev pub int_max : ℤ
int_max = pos 2147483647

abbrev pub uint_max : ℕ
uint_max = 4294967295

abbrev pub IsInt : ℤ → Type 0
IsInt a = (int_min ≤ℤ a) × (a ≤ℤ int_max)

-- `a as libc::c_uint`
unfoldable pub as_uint : ℤ → ℕ
as_uint (pos n) = n % 4294967296
as_uint (negsuc n) = 4294967295 - n % 4294967296

-- `a as usize`, of a `c_int`, on a system with 64 bits
abbrev pub as_usize : ℤ → ℕ
as_usize (pos n) = n
as_usize (negsuc n) = 18446744073709551615 - n

-- `u as libc::c_int`, for `u` below 2^32
unfoldable pub as_int : ℕ → ℤ
as_int u = if ltb u 2147483648 then pos u else negsuc (4294967295 - u)

-- A sum or a difference that wraps around as the release build does.
unfoldable pub wrap_int : ℤ → ℤ
unfolding as_uint as_int
wrap_int a = as_int (as_uint a)

pub as_uint-le : (a : ℤ) → as_uint a ≤ uint_max
unfolding as_uint
as_uint-le a = ground arith

pub as_uint-pos : (a : ℤ) → pos 0 ≤ℤ a → a ≤ℤ int_max → as_uint a ≡ pos_part a
unfolding as_uint
as_uint-pos a h k = ground arith

pub wrap_int-IsInt : (a : ℤ) → IsInt (wrap_int a)
unfolding wrap_int
wrap_int-IsInt (pos n) = ground arith
wrap_int-IsInt (negsuc n) = ground arith

pub wrap_int-id : (a : ℤ) → IsInt a → wrap_int a ≡ a
unfolding wrap_int
wrap_int-id (pos n) h = ground arith
wrap_int-id (negsuc n) h = ground arith

-- The successor and the predecessor where they do not wrap.
pub wrap_int-suc_parts :
    (a : ℤ)
    → IsInt a
    → a <ℤ int_max
    → (pos_part (wrap_int (a +ℤ pos 1)) + neg_part a
        ≡ neg_part (wrap_int (a +ℤ pos 1)) + pos_part a + 1)
unfolding wrap_int ◌+ℤ◌
wrap_int-suc_parts (pos n) h k = ground arith
wrap_int-suc_parts (negsuc n) h k = ground arith

pub wrap_int-pred_parts :
    (a : ℤ)
    → IsInt a
    → int_min <ℤ a
    → (pos_part (wrap_int (a -ℤ pos 1)) + neg_part a + 1
        ≡ neg_part (wrap_int (a -ℤ pos 1)) + pos_part a)
unfolding wrap_int ◌-ℤ◌
wrap_int-pred_parts (pos n) h k = ground arith
wrap_int-pred_parts (negsuc n) h k = ground arith

-- A number is not on both sides of zero.
pub one_part : (a : ℤ) → (pos_part a ≡ 0) ⊎ (neg_part a ≡ 0)
one_part (pos n) = inr refl
one_part (negsuc n) = inl refl
