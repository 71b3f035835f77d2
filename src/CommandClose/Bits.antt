-- ===== src/CommandClose/Bits.antt =====
-- The bits of `flags & !FD_CLOEXEC` (examples/command-close.rs).
use Prim.Native.Nat.{bit_and, bit_and-bitwise, digits, min}
use close_fds.Base.{ℕ, zero, suc, ◌+◌, ◌*◌, ◌/◌, ◌%◌, ◌≤◌, ◌≡◌, refl, sym, ap, ◌∙◌, arith}

-- The reference definition of `bit_and`, with fuel for the digits.
abbrev both : ℕ → ℕ → ℕ → ℕ
both n a b = digits (λ b. zero) min n a b

both-zero : (n b : ℕ) → both n 0 b ≡ 0
both-zero zero b = refl
both-zero (suc n) b = refl

both-halves :
    (n a b : ℕ) → a ≤ suc n → both (suc n) a b ≡ both n (a / 2) (b / 2) * 2 + min (a % 2) (b % 2)
both-halves n zero b h = omega (arith, both-zero n (b / 2))
both-halves n (suc a) b h = omega arith

-- What is left of a number by a mask has no bit that the number lacks.
both-twice : (n m a b : ℕ) → a ≤ n → both n a b ≤ m → both m (both n a b) a ≡ both n a b
both-twice zero m a b h fits = both-zero m a
both-twice (suc n) m a b h fits =
    let rest = both n (a / 2) (b / 2) in
    let halves : both (suc n) a b ≡ rest * 2 + min (a % 2) (b % 2) = both-halves n a b h in
    after m rest (both (suc n) a b) halves fits
      (λ k le. both-twice n k (a / 2) (b / 2) (omega (arith, h)) le)
  where
    after :
        (m rest x : ℕ)
        → x ≡ rest * 2 + min (a % 2) (b % 2)
        → x ≤ m
        → ((k : ℕ) → rest ≤ k → both k rest (a / 2) ≡ rest)
        → both m x a ≡ x
    after zero rest x e le ih = omega (arith, le)
    after (suc m) rest x e le ih =
        let half : x / 2 ≡ rest = omega (arith, e) in
        let same : both m (x / 2) (a / 2) ≡ rest =
          ap (λ k. both m k (a / 2)) half ∙ ih m (omega (arith, e, le)) in
        omega (arith, both-halves m x a le, same, e)

pub bit_and-twice : (a b : ℕ) → bit_and (bit_and a b) a ≡ bit_and a b
bit_and-twice a b =
    let same : bit_and a b ≡ both a a b = bit_and-bitwise a b in
    bit_and-bitwise (bit_and a b) a
    ∙ ap (λ x. both x x a) same
    ∙ both-twice a (both a a b) a b (omega arith) (omega arith)
    ∙ sym same

-- The number with so many bits, all of them 1.
abbrev ones : ℕ → ℕ
ones zero = 0
ones (suc k) = ones k * 2 + 1

both-ones : (n k a : ℕ) → a ≤ n → a ≤ ones k → both n a (ones k) ≡ a
both-ones zero k a h small = omega (arith, h, both-zero 0 (ones k))
both-ones (suc n) zero a h small =
    let none_set : a ≡ 0 = omega (arith, small) in
    ap (λ x. both (suc n) x 0) none_set ∙ both-zero (suc n) 0 ∙ sym none_set
both-ones (suc n) (suc k) a h small =
    let mask : ones (suc k) / 2 ≡ ones k = omega arith in
    let rest : both n (a / 2) (ones (suc k) / 2) ≡ a / 2 =
      ap (both n (a / 2)) mask ∙ both-ones n k (a / 2) (omega (arith, h)) (omega (arith, small)) in
    omega (arith, both-halves n a (ones (suc k)) h, rest)

-- A mask of 31 ones with a 0 behind them takes the lowest bit away.
pub bit_and-mask : (a : ℕ) → a ≤ 2147483647 → bit_and a 4294967294 ≡ a / 2 * 2
bit_and-mask zero h = bit_and-bitwise 0 4294967294
bit_and-mask (suc a) h =
    let mask : 4294967294 / 2 ≡ ones 31 = refl in
    let rest : both a (suc a / 2) 2147483647 ≡ suc a / 2 =
      both-ones a 31 (suc a / 2) (omega arith) (omega (arith, h)) in
    omega (
      arith,
      bit_and-bitwise (suc a) 4294967294,
      both-halves a (suc a) 4294967294 (omega arith),
      rest,
    )
