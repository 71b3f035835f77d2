-- ===== src/CloseFds/CloExec.antt =====
-- src/closefds/cloexec.rs
pub mod Shortcut
pub mod Rest
pub mod Whole
use close_fds.Base.{
  ℕ, zero, suc, Bool, true, false, not, ◌&&◌, none, some, List, if◌then◌else◌, ℤ, pos, ltb_ℤ, eqb_ℤ,
  as_uint, uint_max, Action, pure, ◌>>=◌, ◌>>◌, Result, ok, err, get, modify,
}
use close_fds.Target.{Target, is_linux}
use close_fds.Kernel.{Kernel}
use close_fds.Process.{Process, sys_result}
use close_fds.Util.{simplify_keep_fds, check_should_keep, apply_range}
use close_fds.Sys.{set_cloexec}
use close_fds.IterFds.FdIter
use close_fds.IterFds.FdIter.{FdIter}
use close_fds.IterFds.Loops.{for_each}
use close_fds.IterFds.Builder
use close_fds.IterFds.Builder.{FdIterBuilder}
use close_fds.CloseFds.KeepFds.{KeepFds}
use close_fds.CloseFds.KeepLoop.{keep_loop}

-- `CLOSE_RANGE_CLOEXEC` of src/sys.rs
abbrev pub close_range_cloexec : ℕ
close_range_cloexec = 4

module _ (K : Kernel) where
  unfoldable pub set_cloexec_range : ℕ → ℕ → Action (Process K) (Result (Unit {0}))
  set_cloexec_range minfd maxfd = do
    result ← sys_result (K.close_range minfd maxfd close_range_cloexec)
    if eqb_ℤ result (pos 0)
        then pure (ok tt)
        else modify (λ p. record p { may_have_close_range_cloexec = false }) >> pure err

  unfoldable pub set_cloexec_shortcut :
      ℤ → List ℤ → ℤ → Bool → Action (Process K) (Result (Unit {0}))
  unfolding set_cloexec_range apply_range as_uint
  set_cloexec_shortcut minfd keep_fds max_keep_fd fds_sorted p =
      if not p.may_have_close_range_cloexec
      then some (err, p)
      else if ltb_ℤ max_keep_fd minfd
      then set_cloexec_range (as_uint minfd) uint_max p
      else if fds_sorted
      then apply_range (λ low high. set_cloexec_range (as_uint low) (as_uint high)) minfd keep_fds p
      else some (err, p)

module _ (target : Target) (K : Kernel) where
  unfoldable pub set_cloexec_rest : ℕ → ℤ → FdIter → Action (Process K) (Unit {0})
  unfolding for_each set_cloexec_range is_linux as_uint set_cloexec FdIter.drop_fd_iter
  set_cloexec_rest fuel fd fditer = do
    p ← get
    done ←
        (if is_linux target && p.may_have_close_range_cloexec
          then set_cloexec_range K (as_uint fd) uint_max
          else pure err)
    elim done [
      | ok _ ↦ FdIter.drop_fd_iter target K fditer
      | err ↦ set_cloexec K fd >> for_each target K (set_cloexec K) fuel fuel fditer
    ]

  unfoldable pub set_fds_cloexec : ℕ → ℤ → KeepFds → FdIterBuilder → Action (Process K) (Unit {0})
  unfolding simplify_keep_fds set_cloexec_shortcut keep_loop set_cloexec set_cloexec_rest is_linux
      Builder.possible Builder.iter_from
  set_fds_cloexec fuel minfd keep itbuilder =
      let (keep_fds, minfd') = simplify_keep_fds keep.fds keep.sorted minfd in
      do
        shortcut ←
            (if is_linux target
              then set_cloexec_shortcut K minfd' keep_fds keep.max keep.sorted
              else pure err)
        elim shortcut [
          | ok _ ↦ pure tt
          | err ↦ do
            fditer ← Builder.iter_from target K minfd' (Builder.possible true itbuilder)
            keep_loop target K (set_cloexec K) (set_cloexec_rest fuel) fuel fuel keep_fds keep.max
                keep.sorted fditer
        ]

  -- The probe of Linux asks for a range in which no descriptor can be open.
  unfoldable pub probe : Action (Process K) (Unit {0})
  unfolding set_cloexec_range is_linux
  probe =
      if is_linux target then (set_cloexec_range K uint_max uint_max >>= λ _. pure tt) else pure tt
