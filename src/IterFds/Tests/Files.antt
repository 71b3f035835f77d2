-- ===== src/IterFds/Tests/Files.antt =====
-- The tests of src/iterfds/mod.rs that call the generic ones before and after ten files are opened.
pub mod Around
use close_fds.Base.{
  ℕ, zero, suc, Bool, true, false, List, [], ◌∷◌, ℤ, pos, leb_ℤ, Action, pure, ◌>>=◌, ◌>>◌,
}
use close_fds.Target.{Target}
use close_fds.Kernel.{Kernel}
use close_fds.Process.{Process, sys_result, sys_call, check_that}
use close_fds.IterFds.FdIter.{FdIter}
use close_fds.IterFds.Builder
use close_fds.IterFds.Builder.{FdIterBuilder}
use close_fds.IterFds.Tests.{test_size_hint_generic, test_fused_generic}

module _ (K : Kernel) where
  -- A number of rounds of the loop of `open_files`.
  unfoldable pub open_each : (K.World → ℤ × K.World) → ℕ → Action (Process K) (List ℤ)
  unfolding check_that
  open_each open_root zero = pure []
  open_each open_root (suc n) = do
    cur_fd ← sys_result open_root
    check_that (leb_ℤ (pos 0) cur_fd)
    fds ← open_each open_root n
    pure (cur_fd ∷ fds)

  unfoldable pub open_files : (K.World → ℤ × K.World) → Action (Process K) (List ℤ)
  unfolding open_each
  open_files open_root = open_each open_root 10

  unfoldable pub close_files : List ℤ → Action (Process K) (Unit {0})
  close_files [] = pure tt
  close_files (fd ∷ fds) = sys_call (K.close fd) >> close_files fds

module _ (target : Target) (K : Kernel) (open_root : K.World → ℤ × K.World) (fuel : ℕ) where
  -- A test of the iterator of a builder, first without `threadsafe` and then with it.
  unfoldable pub test_both :
      (FdIter → Action (Process K) (Unit {0})) → FdIterBuilder → Action (Process K) (Unit {0})
  unfolding Builder.iter_from Builder.threadsafe
  test_both test builder = do
    Builder.iter_from target K (pos 0) (Builder.threadsafe target false builder) >>= test
    Builder.iter_from target K (pos 0) (Builder.threadsafe target true builder) >>= test

  unfoldable pub test_around :
      (FdIter → Action (Process K) (Unit {0})) → FdIterBuilder → Action (Process K) (Unit {0})
  unfolding test_both open_files close_files
  test_around test builder = do
    test_both test builder
    fds ← open_files K open_root
    test_both test builder
    close_files K fds

  unfoldable pub test_size_hint_open : Action (Process K) (Unit {0})
  unfolding test_around test_size_hint_generic
  test_size_hint_open = test_around (test_size_hint_generic target K fuel) Builder.new

  unfoldable pub test_size_hint_possible : Action (Process K) (Unit {0})
  unfolding test_around test_size_hint_generic Builder.possible
  test_size_hint_possible =
      test_around (test_size_hint_generic target K fuel) (Builder.possible true Builder.new)

  unfoldable pub test_fused_open : Action (Process K) (Unit {0})
  unfolding test_around test_fused_generic
  test_fused_open = test_around (test_fused_generic target K fuel) Builder.new

  unfoldable pub test_fused_possible : Action (Process K) (Unit {0})
  unfolding test_around test_fused_generic Builder.possible
  test_fused_possible =
      test_around (test_fused_generic target K fuel) (Builder.possible true Builder.new)
