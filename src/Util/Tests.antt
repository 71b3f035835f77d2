-- ===== src/Util/Tests.antt =====
-- `mod tests` of src/util.rs, as far as it calls the pure routines: each test as a Boolean.
use close_fds.Base.{
  ◌≡◌, refl, Bool, true, false, not, ◌&&◌, Option, none, some, List, [], ◌∷◌, ℤ, pos, negsuc, eqb_ℤ,
  int_min, int_max, Result, ok, err, Action,
}
use close_fds.Util.{inspect_keep_fds, check_should_keep, simplify_keep_fds, apply_range}
use close_fds.Util.Gaps.{Range}
use close_fds.Util.Calls.{record_call}

abbrev same_bool : Bool → Bool → Bool
same_bool true b = b
same_bool false b = not b

abbrev same_fds : List ℤ → List ℤ → Bool
same_fds [] [] = true
same_fds (x ∷ xs) (y ∷ ys) = eqb_ℤ x y && same_fds xs ys
same_fds _ _ = false

abbrev same_ranges : List Range → List Range → Bool
same_ranges [] [] = true
same_ranges ((a, b) ∷ xs) ((c, d) ∷ ys) = eqb_ℤ a c && eqb_ℤ b d && same_ranges xs ys
same_ranges _ _ = false

abbrev inspects : List ℤ → ℤ → Bool → Bool
inspects keep_fds max sorted =
    let (found, flag) = inspect_keep_fds keep_fds in eqb_ℤ found max && same_bool flag sorted

unfoldable pub test_inspect_keep_fds : Bool
unfolding inspect_keep_fds
test_inspect_keep_fds =
    inspects [] int_min true
    && inspects (pos 0 ∷ []) (pos 0) true
    && inspects (pos 0 ∷ pos 1 ∷ []) (pos 1) true
    && inspects (pos 1 ∷ pos 0 ∷ []) (pos 1) false
    && inspects (pos 0 ∷ pos 1 ∷ pos 2 ∷ pos 5 ∷ pos 7 ∷ []) (pos 7) true
    && inspects (pos 0 ∷ pos 1 ∷ pos 2 ∷ pos 7 ∷ pos 5 ∷ []) (pos 7) false
    && inspects (negsuc 0 ∷ []) (negsuc 0) true
    && inspects (int_min ∷ []) int_min true

test_inspect_keep_fds-holds : test_inspect_keep_fds ≡ true
unfolding test_inspect_keep_fds
test_inspect_keep_fds-holds = refl

-- Calls of `check_should_keep` in turn: the descriptor, the answer, and the slice after it.
abbrev keeps : Bool → List ℤ → List (ℤ × Bool × List ℤ) → Bool
keeps fds_sorted keep_fds [] = true
keeps fds_sorted keep_fds ((fd, expected, after) ∷ rest) =
    let (answer, slice) = check_should_keep keep_fds fd fds_sorted in
    same_bool answer expected && same_fds slice after && keeps fds_sorted slice rest

abbrev five : List ℤ
five = pos 0 ∷ pos 1 ∷ pos 5 ∷ pos 8 ∷ pos 10 ∷ []

unfoldable pub test_check_should_keep_sorted : Bool
unfolding check_should_keep
test_check_should_keep_sorted = keeps true five (
    (pos 0, true, pos 0 ∷ pos 1 ∷ pos 5 ∷ pos 8 ∷ pos 10 ∷ [])
    ∷ (pos 1, true, pos 1 ∷ pos 5 ∷ pos 8 ∷ pos 10 ∷ [])
    ∷ (pos 2, false, pos 5 ∷ pos 8 ∷ pos 10 ∷ [])
    ∷ (pos 2, false, pos 5 ∷ pos 8 ∷ pos 10 ∷ [])
    ∷ (pos 3, false, pos 5 ∷ pos 8 ∷ pos 10 ∷ [])
    ∷ (pos 5, true, pos 5 ∷ pos 8 ∷ pos 10 ∷ [])
    ∷ (pos 6, false, pos 8 ∷ pos 10 ∷ [])
    ∷ [])

test_check_should_keep_sorted-holds : test_check_should_keep_sorted ≡ true
unfolding test_check_should_keep_sorted
test_check_should_keep_sorted-holds = refl

unfoldable pub test_check_should_keep_not_sorted : Bool
unfolding check_should_keep
test_check_should_keep_not_sorted = keeps false five (
    (pos 0, true, five)
    ∷ (pos 1, true, five)
    ∷ (pos 2, false, five)
    ∷ (pos 3, false, five)
    ∷ (pos 5, true, five)
    ∷ (pos 6, false, five)
    ∷ [])

test_check_should_keep_not_sorted-holds : test_check_should_keep_not_sorted ≡ true
unfolding test_check_should_keep_not_sorted
test_check_should_keep_not_sorted-holds = refl

-- The slice and `minfd` after a call.
abbrev simplifies : List ℤ → Bool → ℤ → List ℤ → ℤ → Bool
simplifies keep_fds fds_sorted minfd slice after =
    let (found, next) = simplify_keep_fds keep_fds fds_sorted minfd in
    same_fds found slice && eqb_ℤ next after

unfoldable pub test_simplify_keep_fds : Bool
unfolding simplify_keep_fds
test_simplify_keep_fds =
    simplifies (pos 0 ∷ pos 1 ∷ pos 2 ∷ []) true (pos 3) [] (pos 3)
    && simplifies (pos 2 ∷ pos 3 ∷ pos 4 ∷ pos 5 ∷ pos 6 ∷ pos 7 ∷ []) true (pos 3) [] (pos 8)
    && simplifies (pos 3 ∷ pos 4 ∷ pos 5 ∷ pos 8 ∷ pos 10 ∷ []) true (pos 3) (pos 8 ∷ pos 10 ∷ [])
        (pos 6)
    && simplifies (pos 3 ∷ pos 5 ∷ pos 8 ∷ pos 10 ∷ []) true (pos 3) (pos 5 ∷ pos 8 ∷ pos 10 ∷ [])
        (pos 4)
    && simplifies (pos 4 ∷ pos 5 ∷ pos 8 ∷ pos 10 ∷ []) true (pos 3)
        (pos 4 ∷ pos 5 ∷ pos 8 ∷ pos 10 ∷ []) (pos 3)
    && simplifies (pos 2 ∷ pos 1 ∷ pos 0 ∷ []) false (pos 3) (pos 2 ∷ pos 1 ∷ pos 0 ∷ []) (pos 3)
    && simplifies (pos 4 ∷ pos 5 ∷ pos 8 ∷ pos 10 ∷ pos 3 ∷ []) false (pos 3)
        (pos 4 ∷ pos 5 ∷ pos 8 ∷ pos 10 ∷ pos 3 ∷ []) (pos 3)

test_simplify_keep_fds-holds : test_simplify_keep_fds ≡ true
unfolding test_simplify_keep_fds
test_simplify_keep_fds-holds = refl

-- `check_ok!`: the calls of `apply_range` with a function that succeeds.
abbrev check_ok : ℤ → List ℤ → List Range → Bool
check_ok minfd keep_fds calls = elim (apply_range record_call minfd keep_fds []) [
  | none ↦ false
  | some (err, ranges) ↦ false
  | some (ok _, ranges) ↦ same_ranges ranges calls
]

-- A function that fails, which remembers its only call.
abbrev refuse : ℤ → ℤ → Action (Option Range) (Result (Unit {0}))
refuse low high none = some (err, some (low, high))
refuse low high (some call) = none

-- `check_err!`
abbrev check_err : ℤ → List ℤ → Range → Bool
check_err minfd keep_fds (low, high) = elim (apply_range refuse minfd keep_fds none) [
  | none ↦ false
  | some (ok _, call) ↦ false
  | some (err, none) ↦ false
  | some (err, some (first, last)) ↦ eqb_ℤ first low && eqb_ℤ last high
]

unfoldable pub test_apply_range : Bool
unfolding apply_range
test_apply_range =
    check_ok (pos 0) [] ((pos 0, int_max) ∷ [])
    && check_ok (negsuc 99) [] ((negsuc 99, int_max) ∷ [])
    && check_ok (pos 3) (pos 0 ∷ pos 2 ∷ pos 3 ∷ pos 4 ∷ pos 5 ∷ pos 6 ∷ []) ((pos 7, int_max) ∷ [])
    && check_ok (pos 3) (pos 0 ∷ pos 2 ∷ []) ((pos 3, int_max) ∷ [])
    && check_ok (pos 3) (pos 3 ∷ pos 4 ∷ pos 5 ∷ pos 6 ∷ []) ((pos 7, int_max) ∷ [])
    && check_ok (pos 3) (pos 4 ∷ pos 5 ∷ pos 6 ∷ []) ((pos 3, pos 3) ∷ (pos 7, int_max) ∷ [])
    && check_ok (pos 3) (pos 5 ∷ pos 6 ∷ pos 9 ∷ pos 10 ∷ [])
        ((pos 3, pos 4) ∷ (pos 7, pos 8) ∷ (pos 11, int_max) ∷ [])
    && check_ok (pos 3) (pos 5 ∷ pos 6 ∷ pos 9 ∷ pos 10 ∷ pos 20 ∷ pos 23 ∷ []) (
        (pos 3, pos 4)
        ∷ (pos 7, pos 8)
        ∷ (pos 11, pos 19)
        ∷ (pos 21, pos 22)
        ∷ (pos 24, int_max)
        ∷ [])
    && check_err (pos 0) [] (pos 0, int_max)
    && check_err (negsuc 99) [] (negsuc 99, int_max)
    && check_err (pos 3) (pos 0 ∷ pos 2 ∷ pos 3 ∷ pos 4 ∷ pos 5 ∷ pos 6 ∷ []) (pos 7, int_max)
    && check_err (pos 3) (pos 0 ∷ pos 2 ∷ []) (pos 3, int_max)
    && check_err (pos 3) (pos 3 ∷ pos 4 ∷ pos 5 ∷ pos 6 ∷ []) (pos 7, int_max)
    && check_err (pos 3) (pos 4 ∷ pos 5 ∷ pos 6 ∷ []) (pos 3, pos 3)
    && check_err (pos 3) (pos 5 ∷ pos 6 ∷ pos 9 ∷ pos 10 ∷ []) (pos 3, pos 4)
    && check_err (pos 3) (pos 5 ∷ pos 6 ∷ pos 9 ∷ pos 10 ∷ pos 20 ∷ pos 23 ∷ []) (pos 3, pos 4)

test_apply_range-holds : test_apply_range ≡ true
unfolding test_apply_range
test_apply_range-holds = refl
