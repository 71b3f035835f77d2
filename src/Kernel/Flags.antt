-- ===== src/Kernel/Flags.antt =====
-- The flag `FD_CLOEXEC` of a descriptor: what it is to set it, and what the theorems assume of the calls
-- that do.
use Prim.Native.Nat.{bit_and, bit_or, digits, bit_and-bitwise, bit_or-bitwise, min}
use close_fds.Base.{
  ℕ, zero, suc, ◌/◌, ◌%◌, ◌≡◌, refl, not, ◌&&◌, if◌then◌else◌, ◌==◌, arith, ℤ, pos, pos_part, leb_ℤ,
  eqb_ℤ, ◌≤ℤ◌,
}
use close_fds.Kernel.{Kernel}
use close_fds.Kernel.Laws.{in_range}
use close_fds.Kernel.Effect.{IsEffect}

-- The answer of `F_GETFD` once `FD_CLOEXEC`, which is 1, is set: -1 stays -1.
abbrev pub with_cloexec : ℤ → ℤ
with_cloexec flags =
    if leb_ℤ (pos 0) flags && not (bit_and (pos_part flags) 1 == 1)
    then pos (bit_or (pos_part flags) 1)
    else flags

digits-zero : (n a : ℕ) → digits (λ b. zero) min n a 0 ≡ 0
digits-zero zero a = refl
digits-zero (suc n) zero = refl
digits-zero (suc n) (suc a) = omega (arith, digits-zero n (suc a / 2))

pub bit_and-one : (a : ℕ) → bit_and a 1 ≡ a % 2
bit_and-one zero = bit_and-bitwise 0 1
bit_and-one (suc a) = omega (arith, bit_and-bitwise (suc a) 1, digits-zero a (suc a / 2))

pub bit_or-odd : (a : ℕ) → bit_or a 1 % 2 ≡ 1
bit_or-odd zero = omega (arith, bit_or-bitwise 0 1)
bit_or-odd (suc a) = omega (arith, bit_or-bitwise (suc a) 1)

pub with_cloexec-IsEffect : IsEffect with_cloexec
with_cloexec-IsEffect = record {
  twice =
      λ flags. ground (arith, bit_and-one (bit_or (pos_part flags) 1), bit_or-odd (pos_part flags));
  absent = refl;
}

-- `F_SETFD` sets the flags of an open descriptor, and `close_range` with `CLOSE_RANGE_CLOEXEC`, which
-- is 4, those of the open ones in its range.
pub record IsFlagTable (K : Kernel) : Type 0 where
  pub getfd-setfd :
      (i j : ℤ) (w : K.World)
      → pos 0 ≤ℤ K.getfd i w
      → let flags = pos (bit_or (pos_part (K.getfd i w)) 1) in
        K.getfd j (K.setfd i flags w) ≡ (if eqb_ℤ i j then flags else K.getfd j w)
  pub getfd-mark_range :
      (first last : ℕ) (j : ℤ) (w : K.World)
      → (K.close_range first last 4 w).0 ≡ pos 0
      → K.getfd j (K.close_range first last 4 w).1
        ≡ (if in_range first last j then with_cloexec (K.getfd j w) else K.getfd j w)
