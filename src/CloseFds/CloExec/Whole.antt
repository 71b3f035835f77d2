-- ===== src/CloseFds/CloExec/Whole.antt =====
-- `set_fds_cloexec` of src/closefds/cloexec.rs as a whole.
use close_fds.Base.{
  arith, ℕ, suc, ◌+◌, ◌≤◌, ◌<◌, ◌≡◌, refl, inl, inr, Bool, true, false, List, ℤ, pos, ◌≤ℤ◌, int_max,
  Result, err, Action, pure, Returns, if◌then◌else◌, Bool-cases,
}
use close_fds.Target.{Target, is_linux}
use close_fds.Kernel.{Kernel}
use close_fds.Kernel.Laws.{IsTable}
use close_fds.Kernel.Effect.{Attempts}
use close_fds.Kernel.Flags.{with_cloexec, with_cloexec-IsEffect, IsFlagTable}
use close_fds.Process.{Process}
use close_fds.Sys.{set_cloexec}
use close_fds.Util.{simplify_keep_fds}
use close_fds.Util.Simplify.{is_target}
use close_fds.IterFds.Builder
use close_fds.IterFds.Builder.{FdIterBuilder}
use close_fds.IterFds.FdIter.Limits.{IsBounded}
use close_fds.IterFds.Contract.{IsIterator}
use close_fds.IterFds.DirFd.Laws.{IsDirectory, Opens}
use close_fds.IterFds.Listed.Kept.{listed-IsIterator}
use close_fds.CloseFds.KeepLoop.Listed.{listed-Starts}
use close_fds.IterFds.Scan.{scan-IsIterator}
use close_fds.CloseFds.KeepFds.{KeepFds}
use close_fds.CloseFds.KeepLoop.Started.{Outcome, Starts, shortcut_or_loop-Outcome}
use close_fds.CloseFds.KeepLoop.Scanned.{scan-Starts}
use close_fds.CloseFds.Request.{IsRequest, IsKept, simplified-IsRequest}
use close_fds.CloseFds.CloExec.{set_cloexec_shortcut, set_cloexec_rest, set_fds_cloexec}
use close_fds.CloseFds.CloExec.Shortcut.{set_cloexec_shortcut-Attempts}
use close_fds.CloseFds.CloExec.Rest.{set_cloexec-Acts, set_cloexec_rest-Rests}

module _ (target : Target) (K : Kernel) (T : IsTable K) (F : IsFlagTable K) where
  -- The shortcut, which is there on Linux.
  abbrev tried : ℤ → List ℤ → ℤ → Bool → Action (Process K) (Result (Unit {0}))
  tried minfd keep_fds max_keep_fd fds_sorted =
      if is_linux target
      then set_cloexec_shortcut K minfd keep_fds max_keep_fd fds_sorted
      else pure err

  tried-Attempts :
      (minfd : ℤ) (keep_fds : List ℤ) (max_keep_fd : ℤ) (fds_sorted : Bool) (p : Process K)
      → IsRequest minfd keep_fds max_keep_fd fds_sorted
      → Returns
          (tried minfd keep_fds max_keep_fd fds_sorted p)
          (λ r q. Attempts K with_cloexec (is_target minfd keep_fds) p.world r q.world)
  tried-Attempts minfd keep_fds max_keep_fd fds_sorted p h = elim (Bool-cases (is_linux target)) [
    | inl linux ↦
        rw linux (set_cloexec_shortcut-Attempts K T F minfd keep_fds max_keep_fd fds_sorted p h)
    | inr other ↦ rw other (λ j i. inl refl)
  ]

  module _ (limit : ℤ) (fuel : ℕ) (I : IsIterator target K limit fuel)
      (itbuilder : FdIterBuilder) where
    pub set_fds_cloexec-Outcome :
        (minfd : ℤ) (keep : KeepFds) (p : Process K)
        → Starts target K T limit fuel I (Builder.possible true itbuilder)
        → IsKept keep
        → pos 0 ≤ℤ minfd
        → minfd ≤ℤ int_max
        → Returns
            (set_fds_cloexec target K fuel minfd keep itbuilder p)
            (λ _ q. Outcome K with_cloexec limit (is_target minfd keep.fds) p.world q.world)
    unfolding set_fds_cloexec
    set_fds_cloexec-Outcome minfd keep p starts h low high =
        shortcut_or_loop-Outcome target K T limit fuel I (Builder.possible true itbuilder) starts
          with_cloexec with_cloexec-IsEffect (set_cloexec K)
          (set_cloexec-Acts target K T F limit fuel I) (set_cloexec_rest target K fuel)
          (set_cloexec_rest-Rests target K T F limit fuel I) minfd keep p h low high
          (tried m k keep.max keep.sorted)
          (tried-Attempts m k keep.max keep.sorted p (simplified-IsRequest keep minfd h low high))
      where
        k : List ℤ
        k = (simplify_keep_fds keep.fds keep.sorted minfd).0

        m : ℤ
        m = (simplify_keep_fds keep.fds keep.sorted minfd).1

module _ (target : Target) (K : Kernel) (T : IsTable K) (F : IsFlagTable K) (limit : ℤ) (top : ℕ)
    (L : IsBounded target K limit top) where
  -- Over a kernel that keeps its promises, also on how large a descriptor may be, asked not to use
  -- the file system, on every system, with fuel for more rounds than the largest number `top` that
  -- a descriptor may have, a `KeepFds` that tells the truth on a list below the largest `c_int`,
  -- and a `minfd` that is a nonnegative `c_int`, `set_fds_cloexec` ends: nothing but the close-on-
  -- exec flags of descriptors from `minfd` on that are not in the list was changed, and these are
  -- set on all that are open up to any number that the clamped soft limit never falls below.
  pub set_fds_cloexec-scan :
      (fuel : ℕ) (enough : top < fuel) (minfd : ℤ) (keep : KeepFds) (itbuilder : FdIterBuilder)
      (p : Process K)
      → itbuilder.dirfd ≡ false
      → IsKept keep
      → pos 0 ≤ℤ minfd
      → minfd ≤ℤ int_max
      → Returns
          (set_fds_cloexec target K (suc fuel) minfd keep itbuilder p)
          (λ _ q. Outcome K with_cloexec limit (is_target minfd keep.fds) p.world q.world)
  unfolding Builder.possible
  set_fds_cloexec-scan fuel enough minfd keep itbuilder p off h low high =
      set_fds_cloexec-Outcome target K T F limit (suc fuel)
        (scan-IsIterator target K T limit top L fuel enough) itbuilder minfd keep p
        (scan-Starts target K T limit top L (Builder.possible true itbuilder) fuel enough off) h low
        high

  -- Over a kernel that keeps its promises, also on how large a descriptor may be and on the
  -- directory of descriptors, which has a bounded number of entries, on every system, with fuel for
  -- the entries and for more rounds than the largest number `top` that a descriptor may have, a
  -- `KeepFds` that tells the truth on a list below the largest `c_int`, and a `minfd` that is a
  -- nonnegative `c_int`, `set_fds_cloexec` ends, whether it may use the file system or not: nothing
  -- but the close-on-exec flags of descriptors from `minfd` on that are not in the list was
  -- changed, and these are set on all that are open up to any number that the clamped soft limit
  -- never falls below.
  pub set_fds_cloexec-listed :
      (entries : ℕ) (D : IsDirectory K entries) (fuel : ℕ) (minfd : ℤ) (keep : KeepFds)
      (itbuilder : FdIterBuilder) (p : Process K)
      → Opens K target entries D
      → entries + suc top ≤ fuel
      → IsKept keep
      → pos 0 ≤ℤ minfd
      → minfd ≤ℤ int_max
      → Returns
          (set_fds_cloexec target K (suc fuel) minfd keep itbuilder p)
          (λ _ q. Outcome K with_cloexec limit (is_target minfd keep.fds) p.world q.world)
  unfolding Builder.possible
  set_fds_cloexec-listed entries D fuel minfd keep itbuilder p opens enough h low high =
      set_fds_cloexec-Outcome target K T F limit (suc fuel)
        (listed-IsIterator target K T limit top L entries D fuel (omega arith)) itbuilder minfd keep
        p
        (listed-Starts target K T limit top L entries D fuel enough
          (Builder.possible true itbuilder) opens)
        h low high
