-- ===== src/IterFds/DirFd/Decimal.antt =====
-- The names of the entries that `parse_int_bytes` of src/iterfds/dirfd.rs reads: numbers in decimal.
use close_fds.Base.{
  ℕ, zero, suc, ◌+◌, ◌-◌, ◌*◌, ◌/◌, ◌%◌, ◌≤◌, ◌<◌, ◌≡◌, ◌≢◌, refl, ◌∙◌, ap, inl, inr, true, none,
  some, List, [], ◌∷◌, ◌++◌, if◌then◌else◌, arith, ltb, pos, pos_part, int_max, All, Bool-cases,
}
use close_fds.IterFds.DirFd.{parse_int_bytes}
use close_fds.IterFds.DirFd.Parse.{IsDigit, value, parse_int_bytes_complete}

-- The digits of a number, with fuel for them.
decimal_from : ℕ → ℕ → List ℕ
decimal_from zero n = []
decimal_from (suc fuel) n =
    let rest = decimal_from fuel (n / 10) in
    if ltb n 10 then (b'0' + n) ∷ [] else rest ++ (b'0' + n % 10) ∷ []

unfoldable pub decimal : ℕ → List ℕ
unfolding decimal_from
decimal n = decimal_from (suc n) n

value-snoc : (xs : List ℕ) (acc d : ℕ) → value acc (xs ++ (b'0' + d) ∷ []) ≡ value acc xs * 10 + d
value-snoc [] acc d = omega arith
value-snoc (x ∷ xs) acc d = value-snoc xs (acc * 10 + (x - b'0')) d

All-snoc : (xs : List ℕ) (d : ℕ) → All IsDigit xs → IsDigit d → All IsDigit (xs ++ d ∷ [])
All-snoc [] d h i = (i, tt)
All-snoc (x ∷ xs) d h i = (h.0, All-snoc xs d h.1 i)

snoc_some : (xs : List ℕ) (d : ℕ) → xs ++ d ∷ [] ≢ []
snoc_some [] d e = cc
snoc_some (x ∷ xs) d e = cc

-- What the digits of a number are: digits, at least one, with that value.
abbrev IsDecimal : ℕ → List ℕ → Type 0
IsDecimal n chs = (value 0 chs ≡ n) × All IsDigit chs × (chs ≢ [])

decimal_from-IsDecimal : (fuel n : ℕ) → n < fuel → IsDecimal n (decimal_from fuel n)
unfolding decimal_from
decimal_from-IsDecimal zero n h = absurd (omega arith)
decimal_from-IsDecimal (suc fuel) n h = elim (Bool-cases (ltb n 10)) [
  | inl small ↦
      let lt : n < 10 = ground arith in rw small (omega arith, (omega (arith, lt), tt), λ e. cc)
  | inr large ↦
      let ge : 10 ≤ n = ground arith in
      let (same, digits, some_digit) = decimal_from-IsDecimal fuel (n / 10) (omega (arith, ge)) in
      rw large (
        omega (arith, same, value-snoc (decimal_from fuel (n / 10)) 0 (n % 10)),
        All-snoc (decimal_from fuel (n / 10)) (b'0' + n % 10) digits (omega arith),
        snoc_some (decimal_from fuel (n / 10)) (b'0' + n % 10),
      )
]

-- The decimal digits of a number that fits into a `c_int` are read as that number.
pub parse_int_bytes-decimal :
    (n : ℕ) → n ≤ pos_part int_max → parse_int_bytes (decimal n) ≡ some (pos n)
unfolding decimal
parse_int_bytes-decimal n h =
    let (same, digits, some_digit) = decimal_from-IsDecimal (suc n) n (omega arith) in
    parse_int_bytes_complete (decimal_from (suc n) n) some_digit digits (omega (arith, same))
    ∙ ap (λ m. some (pos m)) same

-- A name that begins with a dot is not read, such as those of the directory and its parent.
pub parse_int_bytes-dot : (rest : List ℕ) → parse_int_bytes (b'.' ∷ rest) ≡ none
unfolding parse_int_bytes
parse_int_bytes-dot rest = refl

pub decimal-digit : (n : ℕ) → n < 10 → decimal n ≡ (b'0' + n) ∷ []
unfolding decimal decimal_from
decimal-digit n h = let small : ltb n 10 ≡ true = ground arith in rw small refl
