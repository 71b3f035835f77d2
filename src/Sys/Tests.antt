-- ===== src/Sys/Tests.antt =====
-- The tests of src/util.rs that call the kernel.
pub mod Passing
use Prim.Native.Nat.{bit_and}
use close_fds.Base.{
  ◌≡◌, refl, Bool, true, false, not, none, some, if◌then◌else◌, ◌==◌, arith, ℤ, pos, negsuc,
  pos_part, ◌≤ℤ◌, leb_ℤ, eqb_ℤ, int_max, Action, pure, ◌>>=◌, ◌>>◌, Returns, ◌∙◌, IsInt,
}
use close_fds.Kernel.{Kernel}
use close_fds.Process.{Process, sys_read, sys_call, sys_result, check_that}
use close_fds.Sys.{is_fd_valid, set_cloexec}

module _ (K : Kernel) where
  unfoldable pub is_cloexec : ℤ → Action (Process K) Bool
  unfolding check_that
  is_cloexec fd = do
    flags ← sys_read (K.getfd fd)
    check_that (leb_ℤ (pos 0) flags)
    pure (bit_and (pos_part flags) 1 == 1)

module _ (K : Kernel) (open_root : K.World → ℤ × K.World) where
  unfoldable pub with_fd : (ℤ → Action (Process K) (Unit {0})) → Action (Process K) (Unit {0})
  unfolding check_that
  with_fd f = do
    fd ← sys_result open_root
    check_that (leb_ℤ (pos 0) fd)
    f fd
    sys_call (K.close fd)

  unfoldable pub test_is_fd_valid : Action (Process K) (Unit {0})
  unfolding with_fd check_that is_fd_valid
  test_is_fd_valid = do
    negative ← sys_read (is_fd_valid K (negsuc 0))
    check_that (not negative)
    largest ← sys_read (is_fd_valid K int_max)
    check_that (not largest)
    standard ← sys_read (is_fd_valid K (pos 0))
    check_that standard
    with_fd (λ fd. sys_read (is_fd_valid K fd) >>= check_that)

  unfoldable pub test_set_cloexec : Action (Process K) (Unit {0})
  unfolding with_fd check_that is_cloexec set_cloexec
  test_set_cloexec = do
    set_cloexec K (negsuc 0)
    set_cloexec K int_max
    with_fd (λ fd. do
      before ← is_cloexec K fd
      check_that (not before)
      set_cloexec K fd
      after ← is_cloexec K fd
      check_that after)
