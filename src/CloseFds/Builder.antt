-- ===== src/CloseFds/Builder.antt =====
-- `CloseFdsBuilder` and the functions of src/closefds/mod.rs.
pub mod Whole
use close_fds.Base.{ℕ, Bool, true, List, if◌then◌else◌, ℤ, pos, ltb_ℤ, Action, ◌>>◌}
use close_fds.Target.{Target}
use close_fds.Kernel.{Kernel}
use close_fds.Process.{Process}
use close_fds.IterFds.Builder as FdIters
use close_fds.IterFds.Builder.{FdIterBuilder}
use close_fds.CloseFds.KeepFds
use close_fds.CloseFds.KeepFds.{KeepFds}
use close_fds.CloseFds.Close
use close_fds.CloseFds.CloExec

pub record CloseFdsBuilder : Type 0 where
  pub keep : KeepFds
  pub it : FdIterBuilder

-- `CloseFdsBuilder::new`
abbrev pub new : CloseFdsBuilder
new = record { keep = KeepFds.empty; it = FdIters.new }

unfoldable pub keep_fds : List ℤ → CloseFdsBuilder → CloseFdsBuilder
unfolding KeepFds.new
keep_fds fds builder = record builder { keep = KeepFds.new fds }

unfoldable pub keep_fds_sorted : List ℤ → CloseFdsBuilder → CloseFdsBuilder
unfolding KeepFds.new_sorted
keep_fds_sorted fds builder = record builder { keep = KeepFds.new_sorted fds }

-- `core::cmp::max(minfd, 0)`
unfoldable pub clamp_minfd : ℤ → ℤ
clamp_minfd minfd = if ltb_ℤ minfd (pos 0) then pos 0 else minfd

module _ (target : Target) where
  unfoldable pub threadsafe : Bool → CloseFdsBuilder → CloseFdsBuilder
  unfolding FdIters.threadsafe
  threadsafe b builder = record builder { it = FdIters.threadsafe target b builder.it }

  unfoldable pub allow_filesystem : Bool → CloseFdsBuilder → CloseFdsBuilder
  unfolding FdIters.allow_filesystem
  allow_filesystem fs builder = record builder {
    it = FdIters.allow_filesystem target fs builder.it;
  }

  module _ (K : Kernel) (fuel : ℕ) where
    unfoldable pub cloexecfrom : ℤ → CloseFdsBuilder → Action (Process K) (Unit {0})
    unfolding CloExec.set_fds_cloexec clamp_minfd
    cloexecfrom minfd builder =
        CloExec.set_fds_cloexec target K fuel (clamp_minfd minfd) builder.keep builder.it

    unfoldable pub closefrom : ℤ → CloseFdsBuilder → Action (Process K) (Unit {0})
    unfolding Close.close_fds_from clamp_minfd
    closefrom minfd builder =
        Close.close_fds_from target K fuel (clamp_minfd minfd) builder.keep builder.it

    unfoldable pub set_fds_cloexec : ℤ → List ℤ → Action (Process K) (Unit {0})
    unfolding cloexecfrom keep_fds
    set_fds_cloexec minfd fds = cloexecfrom minfd (keep_fds fds new)

    unfoldable pub set_fds_cloexec_threadsafe : ℤ → List ℤ → Action (Process K) (Unit {0})
    unfolding cloexecfrom keep_fds threadsafe
    set_fds_cloexec_threadsafe minfd fds = cloexecfrom minfd (threadsafe true (keep_fds fds new))

    unfoldable pub close_open_fds : ℤ → List ℤ → Action (Process K) (Unit {0})
    unfolding closefrom keep_fds
    close_open_fds minfd fds = closefrom minfd (keep_fds fds new)

  -- `probe` of src/closefds/mod.rs
  unfoldable pub probe : (K : Kernel) → Action (Process K) (Unit {0})
  unfolding Close.probe CloExec.probe
  probe K = Close.probe target K >> CloExec.probe target K
