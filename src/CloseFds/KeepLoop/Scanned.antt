-- ===== src/CloseFds/KeepLoop/Scanned.antt =====
-- An iterator that is built to read no directory starts a scan.
use close_fds.Base.{ℕ, suc, ◌<◌, ◌≡◌, refl, inl, false, ◌&&◌, arith, ℤ, pos, ltb_ℤ}
use close_fds.Target.{Target, has_dirfd}
use close_fds.Kernel.{Kernel}
use close_fds.Kernel.Laws.{IsTable}
use close_fds.IterFds.Builder
use close_fds.IterFds.Builder.{FdIterBuilder}
use close_fds.IterFds.Scan.{scan-IsIterator}
use close_fds.CloseFds.KeepLoop.Started.{Starts}
use close_fds.IterFds.FdIter.Limits.{IsBounded}

module _ (target : Target) (K : Kernel) (T : IsTable K) (limit : ℤ) (top : ℕ)
    (L : IsBounded target K limit top) where
  pub scan-Starts :
      (b : FdIterBuilder) (fuel : ℕ) (enough : top < fuel)
      → b.dirfd ≡ false
      → Starts target K T limit (suc fuel) (scan-IsIterator target K T limit top L fuel enough) b
  unfolding Builder.iter_from
  scan-Starts b fuel enough off m p low high =
      let least : ltb_ℤ m (pos 0) ≡ false = ground arith in
      let unread : has_dirfd target && b.dirfd ≡ false = ground arith in
      rw (unread, least) (((refl, low, inl refl), omega arith), refl, λ j i. (λ o. cc, λ o. refl))
