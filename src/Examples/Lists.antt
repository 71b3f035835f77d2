-- ===== src/Examples/Lists.antt =====
-- The theorems on lists of descriptors and on names of entries, at concrete inputs.
use close_fds.Base.{
  ℕ, zero, suc, ◌≤◌, ◌≡◌, ◌≢◌, refl, ◌↔◌, ◌⊎◌, true, false, some, List, [], ◌∷◌, arith, ℤ, pos,
  negsuc, ◌≤ℤ◌, contains, IsSorted, All, int_min, int_max, Action, Result, ok, err,
}
use close_fds.Util.{inspect_keep_fds, simplify_keep_fds, apply_range}
use close_fds.Util.Inspect.{inspect_keep_fds-IsSorted, inspect_keep_fds-max}
use close_fds.Util.Simplify.{
  is_target, Simplified, simplify_keep_fds-is_target, simplify_keep_fds-Simplified,
}
use close_fds.Util.Keep.{answers, answers-contains}
use close_fds.Util.Gaps.{Range, gaps, covered, Separated}
use close_fds.Util.Ranges.{run_ranges, apply_range-gaps}
use close_fds.Util.Calls.{record_call, apply_range-calls}
use close_fds.Util.Overflow.{Fails, apply_range-Fails}
use close_fds.IterFds.DirFd.{parse_int_bytes}
use close_fds.IterFds.DirFd.Parse.{IsDigit, value, parse_int_bytes_sound, parse_int_bytes_complete}
use close_fds.IterFds.DirFd.Decimal.{decimal, parse_int_bytes-decimal}

abbrev keep : List ℤ
keep = pos 4 ∷ pos 6 ∷ []

abbrev unsorted : List ℤ
unsorted = pos 6 ∷ negsuc 0 ∷ pos 4 ∷ []

inspect_keep_fds-IsSorted_example : ((inspect_keep_fds unsorted).1 ≡ true) ↔ IsSorted unsorted
inspect_keep_fds-IsSorted_example = inspect_keep_fds-IsSorted unsorted (omega arith)

inspect_keep_fds-max_example :
    let max = (inspect_keep_fds unsorted).0 in
    All (λ fd. fd ≤ℤ max) unsorted
    × (((unsorted ≡ []) × (max ≡ int_min)) ⊎ (contains unsorted max ≡ true))
inspect_keep_fds-max_example = inspect_keep_fds-max unsorted (omega arith)

simplify_keep_fds-is_target_example :
    let (keep', minfd') = simplify_keep_fds keep true (pos 4) in
    is_target minfd' keep' (pos 5) ≡ is_target (pos 4) keep (pos 5)
simplify_keep_fds-is_target_example =
    simplify_keep_fds-is_target keep true (pos 4) (pos 5) (omega arith) (omega arith)

simplify_keep_fds-Simplified_example : Simplified keep (pos 4) (simplify_keep_fds keep true (pos 4))
simplify_keep_fds-Simplified_example =
    simplify_keep_fds-Simplified keep (pos 4) (omega arith) (omega arith)

answers-contains_example :
    answers keep true (pos 3 ∷ pos 4 ∷ pos 7 ∷ []) ≡ false ∷ true ∷ false ∷ []
answers-contains_example =
    answers-contains keep true (pos 3 ∷ pos 4 ∷ pos 7 ∷ []) (λ e. omega arith) (omega arith)

-- A function that fails from the second call on.
abbrev fail_second : ℤ → ℤ → Action ℕ (Result (Unit {0}))
fail_second low high n = some (elim n [ zero ↦ ok tt | suc m ↦ err ], suc n)

apply_range-gaps_example :
    apply_range fail_second (pos 3) keep 0 ≡ run_ranges fail_second (gaps (pos 3) keep) 0
apply_range-gaps_example =
    apply_range-gaps fail_second (pos 3) keep 0 (omega arith) (omega arith) (omega arith)
      (omega arith)

apply_range-calls_example :
    (calls : List Range) × (apply_range record_call (pos 3) keep [] ≡ some (ok tt, calls))
    × Separated (pos 3) calls
    × ((fd : ℤ) → fd ≤ℤ int_max → covered calls fd ≡ is_target (pos 3) keep fd)
apply_range-calls_example =
    apply_range-calls (pos 3) keep (omega arith) (omega arith) (omega arith) (omega arith)

-- `close_range` refuses an inverted range.
abbrev refuse_inverted : ℤ → ℤ → Action ℕ (Result (Unit {0}))
refuse_inverted (pos low) high n = some (ok tt, n)
refuse_inverted (negsuc low) high n = some (err, n)

apply_range-Fails_example : Fails (apply_range refuse_inverted (pos 3) (pos 5 ∷ int_max ∷ []) 0)
apply_range-Fails_example =
    apply_range-Fails refuse_inverted (λ s t e. cc) (pos 3) (pos 5 ∷ int_max ∷ []) 0 (omega arith)
      (omega arith) (omega arith) refl

abbrev digits : List ℕ
digits = b'4' ∷ b'2' ∷ []

read_digits : parse_int_bytes digits ≡ some (pos 42)
unfolding parse_int_bytes
read_digits = refl

parse_int_bytes_sound_example :
    (digits ≢ [])
    × All IsDigit digits
    × (pos 42 ≡ pos (value 0 digits))
    × (value 0 digits ≤ 2147483647)
parse_int_bytes_sound_example = parse_int_bytes_sound digits (pos 42) read_digits

parse_int_bytes_complete_example : parse_int_bytes digits ≡ some (pos 42)
parse_int_bytes_complete_example =
    parse_int_bytes_complete digits (λ e. cc) (omega arith) (omega arith)

parse_int_bytes-decimal_example : parse_int_bytes (decimal 42) ≡ some (pos 42)
parse_int_bytes-decimal_example = parse_int_bytes-decimal 42 (omega arith)
