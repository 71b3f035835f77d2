-- ===== src/Util.antt =====
-- src/util.rs: the routines on the list of file descriptors to keep. Sums and differences wrap around,
-- as in a release build.
pub mod Inspect
pub mod Simplify
pub mod Keep
pub mod Gaps
pub mod Ranges
pub mod Calls
pub mod Overflow
pub mod Tests
use Prim.Native.Nat.{compare, Ordering}
use close_fds.Base.{
  ◌+◌, ◌≡◌, refl, Bool, true, false, Option, none, some, List, [], ◌∷◌, if◌then◌else◌, ℤ, pos,
  negsuc, pos_part, neg_part, ◌+ℤ◌, ◌-ℤ◌, ltb_ℤ, leb_ℤ, eqb_ℤ, int_min, int_max, wrap_int, position,
  drop, contains, Result, ok, err, Action, pure, and_then,
}

-- The loop of `inspect_keep_fds`, from `max_keep_fd`, `last_fd` and `fds_sorted`.
unfoldable pub inspect_loop : ℤ → ℤ → Bool → List ℤ → ℤ × Bool
inspect_loop max_keep_fd last_fd fds_sorted [] = (max_keep_fd, fds_sorted)
inspect_loop max_keep_fd last_fd fds_sorted (fd ∷ rest) =
    inspect_loop (if ltb_ℤ max_keep_fd fd then fd else max_keep_fd) fd
      (if ltb_ℤ max_keep_fd fd then fds_sorted else if ltb_ℤ fd last_fd then false else fds_sorted)
      rest

unfoldable pub inspect_keep_fds : List ℤ → ℤ × Bool
unfolding inspect_loop
inspect_keep_fds keep_fds = inspect_loop int_min int_min true keep_fds

-- The loop of `simplify_keep_fds`: the slice and `minfd` are its state.
unfoldable pub simplify_loop : List ℤ → ℤ → List ℤ × ℤ
unfolding wrap_int ◌+ℤ◌
simplify_loop [] minfd = ([], minfd)
simplify_loop (first ∷ rest) minfd =
    elim (compare (pos_part first + neg_part minfd) (pos_part minfd + neg_part first)) [
      | Ordering.gt ↦ (first ∷ rest, minfd)
      | Ordering.eq ↦ simplify_loop rest (wrap_int (minfd +ℤ pos 1))
      | Ordering.lt ↦ simplify_loop rest minfd
    ]

-- The slice that is left, and the new `minfd`.
unfoldable pub simplify_keep_fds : List ℤ → Bool → ℤ → List ℤ × ℤ
unfolding simplify_loop
simplify_keep_fds keep_fds fds_sorted minfd =
    if fds_sorted then simplify_loop keep_fds minfd else (keep_fds, minfd)

-- `keep_fds.first() == Some(&fd)`
unfoldable pub first_is : List ℤ → ℤ → Bool
first_is [] fd = false
first_is (x ∷ _) fd = eqb_ℤ x fd

-- The slice without the elements below `fd`, if there is one that is not.
unfoldable pub skip_below : List ℤ → ℤ → List ℤ
skip_below keep_fds fd = elim (position (λ x. leb_ℤ fd x) keep_fds) [
  | none ↦ keep_fds
  | some index ↦ drop index keep_fds
]

-- The answer, and the slice that the caller goes on with.
unfoldable pub check_should_keep : List ℤ → ℤ → Bool → Bool × List ℤ
unfolding first_is skip_below
check_should_keep keep_fds fd fds_sorted =
    if fds_sorted
    then (first_is (skip_below keep_fds fd) fd, skip_below keep_fds fd)
    else (contains keep_fds fd, keep_fds)

module _ {S : Type 0} (func : ℤ → ℤ → Action S (Result (Unit {0}))) where
  -- The loop over the neighbours `low`, `high` of the slice, and the call after it.
  unfoldable pub apply_gaps : ℤ → List ℤ → Action S (Result (Unit {0}))
  unfolding wrap_int ◌+ℤ◌ ◌-ℤ◌
  apply_gaps low [] = func (wrap_int (low +ℤ pos 1)) int_max
  apply_gaps low (high ∷ rest) =
      and_then
        (if leb_ℤ (pos 2) (wrap_int (high -ℤ low))
          then func (wrap_int (low +ℤ pos 1)) (wrap_int (high -ℤ pos 1))
          else pure (ok tt))
        (apply_gaps high rest)

  -- The slice from its first element that is not below `minfd`. Indexing an empty slice panics.
  unfoldable pub apply_from : ℤ → List ℤ → Action S (Result (Unit {0}))
  unfolding apply_gaps
  apply_from minfd [] = λ s. none
  apply_from minfd (first ∷ rest) =
      and_then (if ltb_ℤ minfd first then func minfd (wrap_int (first -ℤ pos 1)) else pure (ok tt))
        (apply_gaps first rest)

  unfoldable pub apply_range : ℤ → List ℤ → Action S (Result (Unit {0}))
  unfolding apply_from
  apply_range minfd keep_fds = elim (position (λ fd. leb_ℤ minfd fd) keep_fds) [
    | none ↦ func minfd int_max
    | some index ↦ apply_from minfd (drop index keep_fds)
  ]
