-- ===== src/CloseFds/KeepLoop.antt =====
-- The loop `while let Some(fd) = fditer.next()` that src/closefds/close.rs and src/closefds/cloexec.rs
-- share, with what they do for one descriptor, and for the rest of them, as parameters.
pub mod Refine
pub mod Started
pub mod Scanned
pub mod Listed
use close_fds.Base.{
  ℕ, zero, suc, Bool, not, Option, none, some, List, if◌then◌else◌, ℤ, ltb_ℤ, Action, ◌>>=◌, ◌>>◌,
}
use close_fds.Target.{Target}
use close_fds.Kernel.{Kernel}
use close_fds.Process.{Process}
use close_fds.Util.{check_should_keep}
use close_fds.IterFds.FdIter
use close_fds.IterFds.FdIter.{FdIter}

module _ (target : Target) (K : Kernel) (act : ℤ → Action (Process K) (Unit {0}))
    (rest : ℤ → FdIter → Action (Process K) (Unit {0})) where
  -- The body of the loop: the slice `keep_fds` and the iterator are its state.
  unfoldable pub loop_body :
      (List ℤ → FdIter → Action (Process K) (Unit {0}))
      → List ℤ
      → ℤ
      → Bool
      → Option ℤ × FdIter
      → Action (Process K) (Unit {0})
  unfolding check_should_keep FdIter.drop_fd_iter
  loop_body continue keep_fds max_keep_fd fds_sorted (none, fditer) =
      FdIter.drop_fd_iter target K fditer
  loop_body continue keep_fds max_keep_fd fds_sorted (some fd, fditer) =
      let (keep, keep_fds') = check_should_keep keep_fds fd fds_sorted in
      if ltb_ℤ max_keep_fd fd
      then rest fd fditer
      else if not keep
      then act fd >> continue keep_fds' fditer
      else continue keep_fds' fditer

  unfoldable pub keep_loop : ℕ → ℕ → List ℤ → ℤ → Bool → FdIter → Action (Process K) (Unit {0})
  unfolding loop_body FdIter.next
  keep_loop zero fuel keep_fds max_keep_fd fds_sorted fditer = λ p. none
  keep_loop (suc rounds) fuel keep_fds max_keep_fd fds_sorted fditer =
      FdIter.next target K fuel fditer
      >>= loop_body
          (λ keep_fds' fditer'. keep_loop rounds fuel keep_fds' max_keep_fd fds_sorted fditer')
          keep_fds max_keep_fd fds_sorted
