-- ===== src/Util/Simplify.antt =====
-- `simplify_keep_fds` of src/util.rs leaves the set of descriptors to act on as it was.
use close_fds.Base.{
  ◌≡◌, refl, ◌∙◌, inl, inr, Bool, true, false, not, ◌&&◌, List, [], ◌∷◌, arith, ℤ, pos, ◌+ℤ◌, ◌≤ℤ◌,
  ◌<ℤ◌, leb_ℤ, int_max, IsInt, contains, All, Ascends, wrap_int, wrap_int-suc_parts, wrap_int-IsInt,
  ℤ-trichotomy, Ascends-mono,
}
use close_fds.Util.{simplify_loop, simplify_keep_fds}

-- A descriptor that the caller asks to close: at least `minfd`, and not to be kept.
abbrev pub is_target : ℤ → List ℤ → ℤ → Bool
is_target minfd keep_fds fd = leb_ℤ minfd fd && not (contains keep_fds fd)

abbrev pub IsBelowMax : ℤ → Type 0
IsBelowMax fd = IsInt fd × (fd <ℤ int_max)

-- The three arms of the loop's `match`.
module _ (x : ℤ) (xs : List ℤ) (minfd : ℤ) where
  loop_greater : minfd <ℤ x → simplify_loop (x ∷ xs) minfd ≡ (x ∷ xs, minfd)
  unfolding simplify_loop
  loop_greater h = ground arith

  loop_equal :
      x ≡ minfd → simplify_loop (x ∷ xs) minfd ≡ simplify_loop xs (wrap_int (minfd +ℤ pos 1))
  unfolding simplify_loop
  loop_equal h = ground arith

  loop_less : x <ℤ minfd → simplify_loop (x ∷ xs) minfd ≡ simplify_loop xs minfd
  unfolding simplify_loop
  loop_less h = ground arith

is_target-suc :
    (x minfd : ℤ) (xs : List ℤ) (fd : ℤ)
    → IsInt minfd
    → minfd <ℤ int_max
    → x ≡ minfd
    → is_target (wrap_int (minfd +ℤ pos 1)) xs fd ≡ is_target minfd (x ∷ xs) fd
is_target-suc x minfd xs fd i lt e = ground (arith, wrap_int-suc_parts minfd i lt)

is_target-skip :
    (x minfd : ℤ) (xs : List ℤ) (fd : ℤ)
    → x <ℤ minfd
    → is_target minfd xs fd ≡ is_target minfd (x ∷ xs) fd
is_target-skip x minfd xs fd lt = ground arith

simplify_loop-is_target :
    (keep_fds : List ℤ) (minfd fd : ℤ)
    → All IsBelowMax keep_fds
    → IsInt minfd
    → let (keep', minfd') = simplify_loop keep_fds minfd in
      is_target minfd' keep' fd ≡ is_target minfd keep_fds fd
unfolding simplify_loop
simplify_loop-is_target [] minfd fd h i = refl
simplify_loop-is_target (x ∷ xs) minfd fd h i = elim (ℤ-trichotomy x minfd) [
  | inl less ↦
      rw (loop_less x xs minfd less)
        (simplify_loop-is_target xs minfd fd h.1 i ∙ is_target-skip x minfd xs fd less)
  | inr (inl equal) ↦ rw (loop_equal x xs minfd equal) (
      simplify_loop-is_target xs (wrap_int (minfd +ℤ pos 1)) fd h.1 (wrap_int-IsInt _)
      ∙ is_target-suc x minfd xs fd i (ground arith) equal)
  | inr (inr greater) ↦ rw (loop_greater x xs minfd greater) refl
]

-- For a list of numbers below the largest `c_int`, and a `c_int` `minfd`, `simplify_keep_fds` does not
-- change which descriptors are to be acted on.
pub simplify_keep_fds-is_target :
    (keep_fds : List ℤ) (fds_sorted : Bool) (minfd fd : ℤ)
    → All IsBelowMax keep_fds
    → IsInt minfd
    → let (keep', minfd') = simplify_keep_fds keep_fds fds_sorted minfd in
      is_target minfd' keep' fd ≡ is_target minfd keep_fds fd
unfolding simplify_keep_fds
simplify_keep_fds-is_target keep_fds true minfd fd h i =
    simplify_loop-is_target keep_fds minfd fd h i
simplify_keep_fds-is_target keep_fds false minfd fd h i = refl

-- Nothing is left to simplify: the slice is empty or begins above `minfd`.
abbrev pub IsReduced : List ℤ → ℤ → Type 0
IsReduced [] minfd = Unit
IsReduced (x ∷ _) minfd = minfd <ℤ x

-- What else a caller relies on: the slice is shorter, and `minfd` did not fall.
abbrev pub Simplified : List ℤ → ℤ → List ℤ × ℤ → Type 0
Simplified keep_fds minfd (keep', minfd') =
    IsReduced keep' minfd'
    × (minfd ≤ℤ minfd')
    × IsInt minfd'
    × ((a : ℤ) → Ascends a keep_fds → Ascends a keep')
    × ((fd : ℤ) → contains keep' fd ≡ true → contains keep_fds fd ≡ true)

Simplified-cons :
    (x : ℤ) (xs : List ℤ) (minfd m : ℤ) (r : List ℤ × ℤ)
    → minfd ≤ℤ m
    → Simplified xs m r
    → Simplified (x ∷ xs) minfd r
Simplified-cons x xs minfd m (keep', minfd') le (reduced, raised, int, ascends, within) = (
  reduced,
  omega arith,
  int,
  λ a p. ascends a (Ascends-mono a x xs p.0 p.1),
  λ fd e. rest fd (within fd e),
)
  where
    rest : (fd : ℤ) → contains xs fd ≡ true → contains (x ∷ xs) fd ≡ true
    rest fd e = ground arith

simplify_loop-Simplified :
    (keep_fds : List ℤ) (minfd : ℤ)
    → All IsBelowMax keep_fds
    → IsInt minfd
    → Simplified keep_fds minfd (simplify_loop keep_fds minfd)
unfolding simplify_loop
simplify_loop-Simplified [] minfd h i = (tt, omega arith, i, λ a p. p, λ fd e. e)
simplify_loop-Simplified (x ∷ xs) minfd h i = elim (ℤ-trichotomy x minfd) [
  | inl less ↦
      rw (loop_less x xs minfd less)
        (Simplified-cons x xs minfd minfd _ (omega arith) (simplify_loop-Simplified xs minfd h.1 i))
  | inr (inl equal) ↦ rw (loop_equal x xs minfd equal) (
      Simplified-cons x xs minfd _ _ (ground (arith, wrap_int-suc_parts minfd i))
        (simplify_loop-Simplified xs (wrap_int (minfd +ℤ pos 1)) h.1 (wrap_int-IsInt _)))
  | inr (inr greater) ↦
      rw (loop_greater x xs minfd greater) (greater, omega arith, i, λ a p. p, λ fd e. e)
]

-- For a list of numbers below the largest `c_int`, and a `c_int` `minfd`, with the flag set, the slice
-- that is left begins above the new `minfd`, which did not fall; it
-- still ascends, and holds no new element.
pub simplify_keep_fds-Simplified :
    (keep_fds : List ℤ) (minfd : ℤ)
    → All IsBelowMax keep_fds
    → IsInt minfd
    → Simplified keep_fds minfd (simplify_keep_fds keep_fds true minfd)
unfolding simplify_keep_fds
simplify_keep_fds-Simplified = simplify_loop-Simplified
