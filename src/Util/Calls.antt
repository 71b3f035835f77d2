-- ===== src/Util/Calls.antt =====
-- The list of the calls that `apply_range` of src/util.rs makes.
use close_fds.Base.{
  ◌≡◌, refl, ◌∙◌, List, [], ◌∷◌, ◌++◌, append_assoc, append-nil, ℤ, pos, ◌≤ℤ◌, int_max, All,
  IsSorted, Result, ok, Action, some,
}
use close_fds.Util.{apply_range}
use close_fds.Util.Simplify.{IsBelowMax, is_target}
use close_fds.Util.Gaps.{Range, gaps, covered, covered-gaps, Separated, gaps-Separated}
use close_fds.Util.Ranges.{run_ranges, apply_range-gaps}

-- A function that always succeeds, and remembers the ranges it was called on.
abbrev pub record_call : ℤ → ℤ → Action (List Range) (Result (Unit {0}))
record_call low high calls = some (ok tt, calls ++ (low, high) ∷ [])

run_ranges-record_call :
    (rs calls : List Range) → run_ranges record_call rs calls ≡ some (ok tt, calls ++ rs)
unfolding run_ranges
run_ranges-record_call [] calls = rw append-nil refl
run_ranges-record_call ((low, high) ∷ rs) calls =
    run_ranges-record_call rs (calls ++ (low, high) ∷ []) ∙ rw append_assoc refl

-- For a `minfd` that is a nonnegative `c_int`, and a sorted list below the largest `c_int`, `apply_range`
-- succeeds with a function that does. The calls are for separate ranges, none of them inverted, which ascend from `minfd`; a descriptor lies
-- in one of them exactly if it is at least `minfd` and not in the list.
pub apply_range-calls :
    (minfd : ℤ) (keep_fds : List ℤ)
    → pos 0 ≤ℤ minfd
    → minfd ≤ℤ int_max
    → All IsBelowMax keep_fds
    → IsSorted keep_fds
    → (calls : List Range) × (apply_range record_call minfd keep_fds [] ≡ some (ok tt, calls))
      × Separated minfd calls
      × ((fd : ℤ) → fd ≤ℤ int_max → covered calls fd ≡ is_target minfd keep_fds fd)
apply_range-calls minfd keep_fds nn le bs up = (
  gaps minfd keep_fds,
  apply_range-gaps record_call minfd keep_fds [] nn le bs up
      ∙ run_ranges-record_call (gaps minfd keep_fds) [],
  gaps-Separated minfd keep_fds le bs,
  λ fd h. covered-gaps minfd keep_fds fd up h,
)
