-- ===== src/IterFds/Tests.antt =====
-- `mod tests` of src/iterfds/mod.rs: what the tests do with an iterator. An assertion that fails is a panic.
pub mod Counted
pub mod Hints
pub mod Loop
pub mod Fused
pub mod Passing
pub mod Files
pub mod Whole
use close_fds.Base.{
  ℕ, zero, suc, ◌+◌, Bool, true, false, ◌&&◌, Option, none, some, if◌then◌else◌, leb, ltb, ◌==◌, ℤ,
  ◌≡◌, refl, Action, pure, ◌>>=◌, ◌>>◌,
}
use close_fds.Target.{Target}
use close_fds.Kernel.{Kernel}
use close_fds.Process.{Process, check_that}
use close_fds.IterFds.FdIter
use close_fds.IterFds.FdIter.{FdIter}

-- `size_hint` of an `FdIter` always has an upper bound, so the branches of the tests for none are left out.

-- The most restrictive limits so far, after `i` descriptors and one more.
unfoldable pub tighten : ℕ → ℕ × ℕ → ℕ × ℕ → ℕ × ℕ
tighten i (cur_low, cur_high) (init_low, init_high) = (
  if ltb init_low (cur_low + i + 1) then cur_low + i + 1 else init_low,
  if ltb (cur_high + i + 1) init_high then cur_high + i + 1 else init_high,
)

abbrev pub is_none : {A : Type 0} → Option A → Bool
is_none none = true
is_none (some a) = false

module _ (target : Target) (K : Kernel) where
  unfoldable pub hint_of : ℕ → FdIter → Action (Process K) (ℕ × ℕ)
  unfolding FdIter.size_hint
  hint_of fuel it p = elim (FdIter.size_hint target K fuel it) [
    | none ↦ none
    | some bounds ↦ some (bounds, p)
  ]

  pub hint_of-some :
      (fuel : ℕ) (it : FdIter) (p : Process K) (bounds : ℕ × ℕ)
      → FdIter.size_hint target K fuel it ≡ some bounds
      → hint_of fuel it p ≡ some (bounds, p)
  unfolding hint_of
  hint_of-some fuel it p bounds e = rw (hint_of, e) refl

  -- The end of the test: what is known of `size_hint`, and of the number `i` of descriptors.
  unfoldable pub hint_end : ℕ → ℕ → ℕ × ℕ → FdIter → Action (Process K) (Unit {0})
  unfolding hint_of check_that FdIter.drop_fd_iter
  hint_end fuel i (init_low, init_high) it = do
    (final_low, _) ← hint_of fuel it
    check_that (final_low == 0)
    check_that (leb init_low i)
    check_that (leb i init_high)
    FdIter.drop_fd_iter target K it

  -- The loop `while let Some(_fd) = fditer.next()`, and what follows it.
  unfoldable pub hint_loop : ℕ → ℕ → ℕ → ℕ × ℕ → FdIter → Action (Process K) (Unit {0})
  unfolding FdIter.next hint_end tighten
  hint_loop zero fuel i init it = λ p. none
  hint_loop (suc rounds) fuel i init it = do
    (fd, it') ← FdIter.next target K fuel it
    elim fd [
      | none ↦ hint_end fuel i init it'
      | some _fd ↦ do
        (cur_low, cur_high) ← hint_of fuel it'
        check_that (leb cur_low cur_high)
        hint_loop rounds fuel (i + 1) (tighten i (cur_low, cur_high) init) it'
    ]

  unfoldable pub test_size_hint_generic : ℕ → FdIter → Action (Process K) (Unit {0})
  unfolding hint_loop
  test_size_hint_generic fuel it = do
    (init_low, init_high) ← hint_of fuel it
    check_that (leb init_low init_high)
    hint_loop fuel fuel 0 (init_low, init_high) it

  -- `fditer.by_ref().count()`, the iterator behind it
  unfoldable pub exhausted : ℕ → ℕ → FdIter → Action (Process K) FdIter
  unfolding FdIter.next
  exhausted zero fuel it = λ p. none
  exhausted (suc rounds) fuel it = do
    (fd, it') ← FdIter.next target K fuel it
    elim fd [ none ↦ pure it' | some _ ↦ exhausted rounds fuel it' ]

  unfoldable pub test_fused_generic : ℕ → FdIter → Action (Process K) (Unit {0})
  unfolding exhausted FdIter.drop_fd_iter
  test_fused_generic fuel it = do
    it' ← exhausted fuel fuel it
    (fd, it'') ← FdIter.next target K fuel it'
    check_that (is_none fd)
    FdIter.drop_fd_iter target K it''
