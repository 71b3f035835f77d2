-- ===== src/IterFds/DirFd/Parse.antt =====
-- `parse_int_bytes` of src/iterfds/dirfd.rs reads exactly the decimal numbers that fit into a `c_int`.
use close_fds.Base.{
  ℕ, ◌+◌, ◌-◌, ◌*◌, ◌≤◌, ◌≡◌, ◌≢◌, refl, Bool, true, false, List, [], ◌∷◌, some, arith, ℤ, pos,
  pos_part, int_max, All,
}
use close_fds.IterFds.DirFd.{parse_loop, parse_int_bytes}

abbrev pub IsDigit : ℕ → Type 0
IsDigit ch = (b'0' ≤ ch) × (ch ≤ b'9')

-- The number that digits spell behind `num`, with no bound.
abbrev pub value : ℕ → List ℕ → ℕ
value num [] = num
value num (ch ∷ rest) = value (num * 10 + (ch - b'0')) rest

le-value : (num : ℕ) (chs : List ℕ) → num ≤ value num chs
le-value num [] = omega arith
le-value num (ch ∷ rest) = omega (arith, le-value (num * 10 + (ch - b'0')) rest)

parse_loop_sound :
    (it : List ℕ) (num : ℕ) (seen_any : Bool) (fd : ℤ)
    → num ≤ pos_part int_max
    → parse_loop it num seen_any ≡ some fd
    → All IsDigit it × (fd ≡ pos (value num it)) × (value num it ≤ pos_part int_max)
unfolding parse_loop
parse_loop_sound [] num seen_any fd fits e = ground arith
parse_loop_sound (ch ∷ rest) num seen_any fd fits e =
    ground (arith, parse_loop_sound rest (num * 10 + (ch - b'0')) true fd)

-- A number that is read was spelled by digits only, at least one, and it is the value of these
-- digits, which fits into a `c_int`.
pub parse_int_bytes_sound :
    (it : List ℕ) (fd : ℤ)
    → parse_int_bytes it ≡ some fd
    → (it ≢ []) × All IsDigit it × (fd ≡ pos (value 0 it)) × (value 0 it ≤ pos_part int_max)
unfolding parse_int_bytes
parse_int_bytes_sound [] fd e = ground arith
parse_int_bytes_sound (ch ∷ rest) fd e =
    let (digits, exact, fits) = parse_loop_sound (ch ∷ rest) 0 false fd (omega arith) e in
    (λ n. cc, digits, exact, fits)

parse_loop_complete :
    (it : List ℕ) (num : ℕ) (seen_any : Bool)
    → All IsDigit it
    → value num it ≤ pos_part int_max
    → (it ≡ [] → seen_any ≡ true)
    → parse_loop it num seen_any ≡ some (pos (value num it))
unfolding parse_loop
parse_loop_complete [] num seen_any digits fits seen = rw (seen refl) refl
parse_loop_complete (ch ∷ rest) num seen_any digits fits seen = ground (
  arith,
  le-value (num * 10 + (ch - b'0')) rest,
  parse_loop_complete rest (num * 10 + (ch - b'0')) true digits.1 fits (λ e. refl),
)

-- Every digit string whose value fits into a `c_int` is read as that value.
pub parse_int_bytes_complete :
    (it : List ℕ)
    → it ≢ []
    → All IsDigit it
    → value 0 it ≤ pos_part int_max
    → parse_int_bytes it ≡ some (pos (value 0 it))
unfolding parse_int_bytes
parse_int_bytes_complete it some_digit digits fits =
    parse_loop_complete it 0 false digits fits (λ e. absurd (some_digit e))
