-- ===== src/CloseFds/Close/Whole.antt =====
-- `close_fds` of src/closefds/close.rs as a whole.
use close_fds.Base.{
  arith, ℕ, suc, ◌+◌, ◌≤◌, ◌<◌, ◌≡◌, refl, ◌∙◌, inl, inr, false, ℤ, pos, ◌≤ℤ◌, int_max, List,
  Returns, Bool-cases,
}
use close_fds.Target.{Target, has_nfds, has_closefrom}
use close_fds.Kernel.{Kernel}
use close_fds.Kernel.Laws.{IsTable}
use close_fds.Kernel.Effect.{closed, closed-IsEffect}
use close_fds.Process.{Process}
use close_fds.Util.{simplify_keep_fds}
use close_fds.Util.Simplify.{is_target}
use close_fds.IterFds.Builder.{FdIterBuilder}
use close_fds.IterFds.FdIter.Limits.{IsBounded}
use close_fds.IterFds.Contract.{IsIterator}
use close_fds.IterFds.DirFd.Laws.{IsDirectory, Opens}
use close_fds.IterFds.Listed.Kept.{listed-IsIterator}
use close_fds.CloseFds.KeepLoop.Listed.{listed-Starts}
use close_fds.IterFds.Scan.{scan-IsIterator}
use close_fds.CloseFds.KeepFds.{KeepFds}
use close_fds.CloseFds.KeepLoop.Started.{Outcome, Starts, shortcut_or_loop-Outcome}
use close_fds.CloseFds.KeepLoop.Scanned.{scan-Starts}
use close_fds.CloseFds.Request.{IsKept, simplified-IsRequest}
use close_fds.CloseFds.Close.{
  close_fd, close_rest, close_fds_shortcut, close_builder, close_fds_from,
}
use close_fds.CloseFds.Close.Shortcut.{close_fds_shortcut-Attempts}
use close_fds.CloseFds.Close.Rest.{close_fd-Acts, close_rest-Rests}

module _ (target : Target) (K : Kernel) (T : IsTable K) (limit : ℤ) (fuel : ℕ)
    (I : IsIterator target K limit fuel) (itbuilder : FdIterBuilder) where
  pub close_fds_from-Outcome :
      (minfd : ℤ) (keep : KeepFds) (p : Process K)
      → Starts target K T limit fuel I (close_builder target K itbuilder)
      → IsKept keep
      → pos 0 ≤ℤ minfd
      → minfd ≤ℤ int_max
      → Returns
          (close_fds_from target K fuel minfd keep itbuilder p)
          (λ _ q. Outcome K closed limit (is_target minfd keep.fds) p.world q.world)
  unfolding close_fds_from
  close_fds_from-Outcome minfd keep p starts h low high =
      shortcut_or_loop-Outcome target K T limit fuel I (close_builder target K itbuilder) starts
        closed closed-IsEffect (close_fd K) (close_fd-Acts target K T limit fuel I)
        (close_rest target K fuel) (close_rest-Rests target K T limit fuel I) minfd keep p h low
        high (close_fds_shortcut target K m k keep.max keep.sorted)
        (close_fds_shortcut-Attempts target K T m k keep.max keep.sorted p
          (simplified-IsRequest keep minfd h low high))
    where
      k : List ℤ
      k = (simplify_keep_fds keep.fds keep.sorted minfd).0

      m : ℤ
      m = (simplify_keep_fds keep.fds keep.sorted minfd).1

module _ (target : Target) (K : Kernel) (T : IsTable K) (limit : ℤ) (top : ℕ)
    (L : IsBounded target K limit top) where
  close_builder-dirfd : (b : FdIterBuilder) → (close_builder target K b).dirfd ≡ b.dirfd
  unfolding close_builder
  close_builder-dirfd b = elim (Bool-cases (has_closefrom target)) [
    | inr other ↦ rw other refl
    | inl bsd ↦ rw bsd (elim (Bool-cases (has_nfds target)) [
      | inl counted ↦ rw counted refl
      | inr uncounted ↦ rw uncounted refl
    ])
  ]

  -- Over a kernel that keeps its promises, also on how large a descriptor may be, asked not to use
  -- the file system, on every system, with fuel for more rounds than the largest number `top` that
  -- a descriptor may have, a `KeepFds` that tells the truth on a list below the largest `c_int`,
  -- and a `minfd` that is a nonnegative `c_int`, `close_fds` ends: nothing but descriptors from
  -- `minfd` on that are not in the list was closed, and these all up to any number that the clamped
  -- soft limit never falls below.
  pub close_fds_from-scan :
      (fuel : ℕ) (enough : top < fuel) (minfd : ℤ) (keep : KeepFds) (itbuilder : FdIterBuilder)
      (p : Process K)
      → itbuilder.dirfd ≡ false
      → IsKept keep
      → pos 0 ≤ℤ minfd
      → minfd ≤ℤ int_max
      → Returns
          (close_fds_from target K (suc fuel) minfd keep itbuilder p)
          (λ _ q. Outcome K closed limit (is_target minfd keep.fds) p.world q.world)
  close_fds_from-scan fuel enough minfd keep itbuilder p off h low high =
      close_fds_from-Outcome target K T limit (suc fuel)
        (scan-IsIterator target K T limit top L fuel enough) itbuilder minfd keep p
        (scan-Starts target K T limit top L (close_builder target K itbuilder) fuel enough
          (close_builder-dirfd itbuilder ∙ off))
        h low high

  -- Over a kernel that keeps its promises, also on how large a descriptor may be and on the
  -- directory of descriptors, which has a bounded number of entries, on every system, with fuel for
  -- the entries and for more rounds than the largest number `top` that a descriptor may have, a
  -- `KeepFds` that tells the truth on a list below the largest `c_int`, and a `minfd` that is a
  -- nonnegative `c_int`, `close_fds` ends, whether it may use the file system or not, and whether
  -- the directory can be read to its end or not: nothing but descriptors from `minfd` on that are
  -- not in the list was closed, and these all up to any number that the clamped soft limit never
  -- falls below.
  pub close_fds_from-listed :
      (entries : ℕ) (D : IsDirectory K entries) (fuel : ℕ) (minfd : ℤ) (keep : KeepFds)
      (itbuilder : FdIterBuilder) (p : Process K)
      → Opens K target entries D
      → entries + suc top ≤ fuel
      → IsKept keep
      → pos 0 ≤ℤ minfd
      → minfd ≤ℤ int_max
      → Returns
          (close_fds_from target K (suc fuel) minfd keep itbuilder p)
          (λ _ q. Outcome K closed limit (is_target minfd keep.fds) p.world q.world)
  close_fds_from-listed entries D fuel minfd keep itbuilder p opens enough h low high =
      close_fds_from-Outcome target K T limit (suc fuel)
        (listed-IsIterator target K T limit top L entries D fuel (omega arith)) itbuilder minfd keep
        p
        (listed-Starts target K T limit top L entries D fuel enough
          (close_builder target K itbuilder) opens)
        h low high
