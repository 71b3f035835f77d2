-- ===== src/CloseFds/Close.antt =====
-- src/closefds/close.rs
pub mod Shortcut
pub mod Rest
pub mod Whole
use close_fds.Base.{
  ℕ, zero, suc, Bool, true, false, not, ◌&&◌, ◌||◌, Option, none, some, List, if◌then◌else◌, ◌==◌,
  ℤ, pos, negsuc, ltb_ℤ, eqb_ℤ, as_uint, uint_max, Action, pure, ◌>>=◌, ◌>>◌, Result, ok, err,
  and_then, get, modify,
}
use close_fds.Target.{Target, has_closefrom, has_apply_range, is_linux, is_freebsd}
use close_fds.Kernel.{Kernel}
use close_fds.Process.{Process, sys_call, sys_result, sys_read}
use close_fds.Util.{simplify_keep_fds, check_should_keep, apply_range}
use close_fds.IterFds.FdIter
use close_fds.IterFds.FdIter.{FdIter}
use close_fds.IterFds.Loops.{for_each}
use close_fds.IterFds.Builder
use close_fds.IterFds.Builder.{FdIterBuilder}
use close_fds.CloseFds.KeepFds.{KeepFds}
use close_fds.CloseFds.KeepLoop.{keep_loop}

module _ (K : Kernel) where
  -- `libc::close(fd)`
  unfoldable pub close_fd : ℤ → Action (Process K) (Unit {0})
  close_fd fd = sys_call (K.close fd)

  -- `try_close_range` on Linux: a failure is remembered.
  unfoldable pub try_close_range_linux : ℕ → ℕ → Action (Process K) (Result (Unit {0}))
  try_close_range_linux minfd maxfd = do
    result ← sys_result (K.close_range minfd maxfd 0)
    if eqb_ℤ result (pos 0)
        then pure (ok tt)
        else modify (λ p. record p { may_have_close_range = false }) >> pure err

  unfoldable pub try_close_range_freebsd : ℕ → ℕ → Action (Process K) (Result (Unit {0}))
  try_close_range_freebsd minfd maxfd = do
    result ← sys_result (K.close_range minfd maxfd 0)
    pure (if eqb_ℤ result (pos 0) then ok tt else err)

  -- The kernel's version is asked for once: 1 and 0 remember the answer.
  unfoldable pub check_has_close_range : Action (Process K) (Result (Unit {0}))
  check_has_close_range p =
      if p.has_close_range == 1
      then some (ok tt, p)
      else if p.has_close_range == 0
      then some (err, p)
      else if not (eqb_ℤ (K.osreldate p.world).0 (pos 0))
          || ltb_ℤ (K.osreldate p.world).1 (pos 1202000)
      then some (err, record p { has_close_range = 0 })
      else some (ok tt, record p { has_close_range = 1 })

module _ (target : Target) (K : Kernel) where
  unfoldable pub try_close_range : ℕ → ℕ → Action (Process K) (Result (Unit {0}))
  unfolding try_close_range_linux try_close_range_freebsd is_linux
  try_close_range minfd maxfd =
      if is_linux target
      then try_close_range_linux K minfd maxfd
      else try_close_range_freebsd K minfd maxfd

  -- The gaps of a sorted list, on the systems with `close_range()`.
  unfoldable pub close_gaps : ℤ → List ℤ → Bool → Action (Process K) (Result (Unit {0}))
  unfolding try_close_range check_has_close_range apply_range has_apply_range is_freebsd as_uint
  close_gaps minfd keep_fds fds_sorted =
      if has_apply_range target && fds_sorted
      then and_then (if is_freebsd target then check_has_close_range K else pure (ok tt))
          (apply_range (λ low high. try_close_range (as_uint low) (as_uint high)) minfd keep_fds)
      else pure err

  unfoldable pub close_fds_shortcut : ℤ → List ℤ → ℤ → Bool → Action (Process K) (Result (Unit {0}))
  unfolding close_gaps has_closefrom is_linux
  close_fds_shortcut minfd keep_fds max_keep_fd fds_sorted p =
      if has_closefrom target && ltb_ℤ max_keep_fd minfd
      then some (ok tt, record p { world = K.closefrom minfd p.world })
      else if is_linux target && not p.may_have_close_range
      then some (err, p)
      else if is_linux target && ltb_ℤ max_keep_fd minfd
      then try_close_range (as_uint minfd) uint_max p
      else close_gaps minfd keep_fds fds_sorted p

  unfoldable pub close_rest : ℕ → ℤ → FdIter → Action (Process K) (Unit {0})
  unfolding close_fd for_each try_close_range has_closefrom is_linux as_uint FdIter.drop_fd_iter
  close_rest fuel fd fditer =
      if has_closefrom target
      then FdIter.drop_fd_iter target K fditer >> sys_call (K.closefrom fd)
      else do
        p ← get
        closed ←
            (if is_linux target && p.may_have_close_range
              then try_close_range (as_uint fd) uint_max
              else pure err)
        elim closed [
          | ok _ ↦ FdIter.drop_fd_iter target K fditer
          | err ↦ close_fd K fd >> for_each target K (close_fd K) fuel fuel fditer
        ]

  -- The iterator that `close_fds` asks for.
  unfoldable pub close_builder : FdIterBuilder → FdIterBuilder
  unfolding Builder.possible Builder.threadsafe has_closefrom
  close_builder itbuilder =
      let possible = Builder.possible true itbuilder in
      if has_closefrom target then Builder.threadsafe target true possible else possible

  -- `close_fds`
  unfoldable pub close_fds_from : ℕ → ℤ → KeepFds → FdIterBuilder → Action (Process K) (Unit {0})
  unfolding simplify_keep_fds close_fds_shortcut keep_loop close_fd close_rest close_builder
      Builder.iter_from
  close_fds_from fuel minfd keep itbuilder =
      let (keep_fds, minfd') = simplify_keep_fds keep.fds keep.sorted minfd in
      do
        shortcut ← close_fds_shortcut minfd' keep_fds keep.max keep.sorted
        elim shortcut [
          | ok _ ↦ pure tt
          | err ↦ do
            fditer ← Builder.iter_from target K minfd' (close_builder itbuilder)
            keep_loop target K (close_fd K) (close_rest fuel) fuel fuel keep_fds keep.max
                keep.sorted fditer
        ]

  -- The probe of Linux asks for an inverted range, which a working call refuses with `EINVAL` (22).
  unfoldable pub probe_close_range : Action (Process K) (Unit {0})
  probe_close_range = do
    result ← sys_result (K.close_range uint_max 4294967294 0)
    errno ← sys_read K.errno
    if eqb_ℤ result (pos 0) || not (eqb_ℤ errno (pos 22))
        then modify (λ p. record p { may_have_close_range = false })
        else pure tt

  unfoldable pub probe : Action (Process K) (Unit {0})
  unfolding check_has_close_range probe_close_range is_linux is_freebsd
  probe =
      if is_linux target
      then probe_close_range
      else if is_freebsd target
      then (check_has_close_range K >>= λ _. pure tt)
      else pure tt
