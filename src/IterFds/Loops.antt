-- ===== src/IterFds/Loops.antt =====
-- The loop `for fd in fditer { … }` over an `FdIter`, with what is done for a descriptor as a parameter,
-- as `close_rest` of src/closefds/close.rs and `set_cloexec_rest` of src/closefds/cloexec.rs use it.
pub mod Each
use close_fds.Base.{ℕ, zero, suc, Option, none, some, ℤ, Action, ◌>>=◌, ◌>>◌}
use close_fds.Target.{Target}
use close_fds.Kernel.{Kernel}
use close_fds.Process.{Process}
use close_fds.IterFds.FdIter
use close_fds.IterFds.FdIter.{FdIter}

module _ (target : Target) (K : Kernel) (act : ℤ → Action (Process K) (Unit {0})) where
  -- One round; the iterator is dropped at its end.
  unfoldable pub each_body :
      (FdIter → Action (Process K) (Unit {0})) → Option ℤ × FdIter → Action (Process K) (Unit {0})
  unfolding FdIter.drop_fd_iter
  each_body continue (none, fditer) = FdIter.drop_fd_iter target K fditer
  each_body continue (some fd, fditer) = act fd >> continue fditer

  -- All rounds, with fuel.
  unfoldable pub for_each : ℕ → ℕ → FdIter → Action (Process K) (Unit {0})
  unfolding FdIter.next each_body
  for_each zero fuel fditer = λ p. none
  for_each (suc rounds) fuel fditer =
      FdIter.next target K fuel fditer >>= each_body (for_each rounds fuel)
