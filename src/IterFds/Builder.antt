-- ===== src/IterFds/Builder.antt =====
-- `FdIterBuilder` and the functions of src/iterfds/mod.rs.
use close_fds.Base.{
  Bool, true, false, none, if◌then◌else◌, ℤ, pos, ltb_ℤ, Action, pure, ◌>>=◌, ◌&&◌,
}
use close_fds.Target.{Target, has_nfds, has_dirfd, is_linux}
use close_fds.Kernel.{Kernel}
use close_fds.Process.{Process}
use close_fds.Sys.{is_wsl_1}
use close_fds.IterFds.DirFd.{open_iter}
use close_fds.IterFds.FdIter.{FdIter}

-- A field that a system does not have keeps its first value there, and nothing reads it.
pub record FdIterBuilder : Type 0 where
  pub possible : Bool
  pub skip_nfds : Bool
  pub dirfd : Bool

-- `FdIterBuilder::new`
abbrev pub new : FdIterBuilder
new = record { possible = false; skip_nfds = false; dirfd = true }

unfoldable pub possible : Bool → FdIterBuilder → FdIterBuilder
possible b builder = record builder { possible = b }

module _ (target : Target) where
  unfoldable pub threadsafe : Bool → FdIterBuilder → FdIterBuilder
  unfolding has_nfds
  threadsafe b builder = if has_nfds target then record builder { skip_nfds = b } else builder

  unfoldable pub allow_filesystem : Bool → FdIterBuilder → FdIterBuilder
  unfolding has_dirfd
  allow_filesystem fs builder = if has_dirfd target then record builder { dirfd = fs } else builder

  module _ (K : Kernel) where
    unfoldable pub iter_from : ℤ → FdIterBuilder → Action (Process K) FdIter
    unfolding has_dirfd open_iter
    iter_from minfd builder =
        let minfd = if ltb_ℤ minfd (pos 0) then pos 0 else minfd in
        do
          dirfd_iter ←
              (if has_dirfd target && builder.dirfd then open_iter target K minfd else pure none)
          pure (record {
            dirfd_iter = dirfd_iter;
            curfd = minfd;
            possible = builder.possible;
            maxfd = none;
            skip_nfds = builder.skip_nfds;
          })

    unfoldable pub iter_open_fds : ℤ → Action (Process K) FdIter
    unfolding iter_from
    iter_open_fds minfd = iter_from minfd new

    unfoldable pub iter_open_fds_threadsafe : ℤ → Action (Process K) FdIter
    unfolding iter_from threadsafe
    iter_open_fds_threadsafe minfd = iter_from minfd (threadsafe true new)

    unfoldable pub iter_possible_fds : ℤ → Action (Process K) FdIter
    unfolding iter_from possible
    iter_possible_fds minfd = iter_from minfd (possible true new)

    unfoldable pub iter_possible_fds_threadsafe : ℤ → Action (Process K) FdIter
    unfolding iter_from possible threadsafe
    iter_possible_fds_threadsafe minfd = iter_from minfd (threadsafe true (possible true new))

    -- `probe` of src/iterfds/mod.rs
    unfoldable pub probe : Action (Process K) (Unit {0})
    unfolding is_wsl_1 is_linux
    probe = if is_linux target then (is_wsl_1 K >>= λ _. pure tt) else pure tt
