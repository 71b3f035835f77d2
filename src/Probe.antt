-- ===== src/Probe.antt =====
-- `probe_features` of src/lib.rs.
pub mod Once
use close_fds.Base.{true, ◌||◌, if◌then◌else◌, Action, ◌>>◌, some}
use close_fds.Target.{Target, is_linux, is_freebsd}
use close_fds.Kernel.{Kernel}
use close_fds.Process.{Process}
use close_fds.IterFds.Builder as FdIters
use close_fds.CloseFds.Builder as Closing

module _ (target : Target) (K : Kernel) where
  unfoldable pub probe_features : Action (Process K) (Unit {0})
  unfolding FdIters.probe Closing.probe is_linux is_freebsd
  probe_features p =
      if is_linux target || is_freebsd target
      then if p.probed
        then some (tt, p)
        else (Closing.probe target K >> FdIters.probe target K) (record p { probed = true })
      else some (tt, p)
