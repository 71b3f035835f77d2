-- ===== src/IterFds/DirFd/Tests.antt =====
-- `mod tests` of src/iterfds/dirfd.rs: the test of `parse_int_bytes` as a Boolean.
use close_fds.Base.{
  zero, suc, ◌+◌, ltb, if◌then◌else◌, length, take, replicate, Result, ok, err, pos_part, int_max,
  ℕ, ◌≡◌, refl, Bool, true, false, ◌&&◌, none, some, List, [], ◌∷◌, ℤ, pos, eqb_ℤ,
}
use close_fds.IterFds.DirFd.{parse_int_bytes}
use close_fds.IterFds.DirFd.Decimal.{decimal}

record BufWriter : Type 0 where
  buf : List ℕ
  i : ℕ

-- `BufWriter::new`
abbrev new : BufWriter
new = record { buf = replicate 80 0; i = 0 }

unfoldable iter_bytes : BufWriter → List ℕ
iter_bytes writer = take writer.i writer.buf

-- `buf[i] = ch`
abbrev set_elem : ℕ → ℕ → List ℕ → List ℕ
set_elem i ch [] = []
set_elem zero ch (x ∷ xs) = ch ∷ xs
set_elem (suc i) ch (x ∷ xs) = x ∷ set_elem i ch xs

-- The loop of `write_str`.
unfoldable write_each : List ℕ → BufWriter → BufWriter
write_each [] writer = writer
write_each (ch ∷ s) writer =
    write_each s (record { buf = set_elem writer.i ch writer.buf; i = writer.i + 1 })

-- The result, and the writer after the call. `write!` of a number with `{}` calls it with the digits.
unfoldable write_str : List ℕ → BufWriter → Result (Unit {0}) × BufWriter
unfolding write_each
write_str s writer =
    if ltb (length writer.buf) (writer.i + length s)
    then (err, writer)
    else (ok tt, write_each s writer)

abbrev succeeds : Result (Unit {0}) → Bool
succeeds (ok _) = true
succeeds err = false

abbrev reads : List ℕ → ℤ → Bool
reads bytes n = elim (parse_int_bytes bytes) [ none ↦ false | some m ↦ eqb_ℤ m n ]

abbrev refuses : List ℕ → Bool
refuses bytes = elim (parse_int_bytes bytes) [ none ↦ true | some m ↦ false ]

unfoldable test_parse_int_bytes : Bool
unfolding parse_int_bytes decimal write_str iter_bytes
test_parse_int_bytes =
    reads (b'0' ∷ []) (pos 0)
    && reads (b'1' ∷ b'0' ∷ []) (pos 10)
    && reads (b'1' ∷ b'4' ∷ b'2' ∷ b'3' ∷ []) (pos 1423)
    && refuses (b' ' ∷ b'0' ∷ [])
    && refuses (b'0' ∷ b' ' ∷ [])
    && refuses (b'-' ∷ b'1' ∷ [])
    && refuses (b'+' ∷ b'1' ∷ [])
    && refuses (b'1' ∷ b'.' ∷ [])
    && refuses []
    && (let (written, buf) = write_str (decimal (pos_part int_max + 1)) new in
        succeeds written && refuses (iter_bytes buf))

test_parse_int_bytes-holds : test_parse_int_bytes ≡ true
unfolding test_parse_int_bytes
test_parse_int_bytes-holds = refl
