-- ===== src/CloseFds/KeepLoop/Listed.antt =====
-- A new iterator, which reads the directory of descriptors if it can be opened.
use close_fds.Base.{
  ℕ, suc, ◌+◌, ◌≤◌, ◌≡◌, refl, sym, ◌∙◌, ap, inl, inr, true, false, ◌&&◌, Option, none, some,
  replicate, arith, ℤ, pos, ◌≤ℤ◌, leb_ℤ, ltb_ℤ, eqb_ℤ-iff, int_max, pure, Returns, Returns-bind,
  Bool-cases, if◌then◌else◌,
}
use close_fds.Target.{Target, has_dirfd}
use close_fds.Kernel.{Kernel}
use close_fds.Kernel.Laws.{IsTable}
use close_fds.Process.{Process}
use close_fds.IterFds.DirFd.{DirFdIter, open_dirfd, open_iter}
use close_fds.IterFds.DirFd.Laws.{IsDirectory, Opening, Opens}
use close_fds.IterFds.DirFd.Listing.{IsListing}
use close_fds.IterFds.DirFd.Opened.{open_dirfd-Opening}
use close_fds.IterFds.FdIter.{FdIter}
use close_fds.IterFds.Builder
use close_fds.IterFds.Builder.{FdIterBuilder}
use close_fds.IterFds.Listed.{Iterating}
use close_fds.IterFds.Listed.Kept.{listed-IsIterator}
use close_fds.CloseFds.KeepLoop.Started.{Opened, Starts}
use close_fds.IterFds.FdIter.Limits.{IsBounded}

module _ (target : Target) (K : Kernel) (T : IsTable K) (limit : ℤ) (top : ℕ)
    (L : IsBounded target K limit top) (entries : ℕ) (D : IsDirectory K entries) (fuel : ℕ)
    (enough : entries + suc top ≤ fuel) (b : FdIterBuilder) where
  module _ (m : ℤ) (p : Process K) (low : pos 0 ≤ℤ m) where
    abbrev made : Option DirFdIter → FdIter
    made o = record {
      dirfd_iter = o;
      curfd = m;
      possible = b.possible;
      maxfd = none;
      skip_nfds = b.skip_nfds;
    }

    abbrev Ready : FdIter → Process K → Type 0
    Ready it q =
        Iterating target K T limit top L entries D fuel (omega arith) (suc fuel) it q.world
        × (it.curfd ≡ m)
        × Opened K it p.world q.world

    scan-Ready :
        (q : Process K) → ((j : ℤ) → K.getfd j q.world ≡ K.getfd j p.world) → Ready (made none) q
    scan-Ready q same =
        (inl ((refl, low, inl refl), omega arith), refl, λ j i. (λ o. cc, λ o. same j))

    abbrev unread : ℤ → DirFdIter
    unread d = record {
      minfd = m;
      dirfd = d;
      dirent_buf = replicate K.dirent_size 0;
      dirent_nbytes = 0;
      dirent_offset = 0;
    }

    unread-IsListing :
        (d : ℤ) (w : K.World)
        → pos 0 ≤ℤ d
        → d ≤ℤ int_max
        → D.Lists d w
        → D.cursor d w ≤ℤ pos 0
        → IsListing K entries D (unread d) m w 0 (D.cursor d w)
    unread-IsListing d w nonneg high lists cursor = record {
      live = (nonneg, high);
      lists = lists;
      from_min = (low, omega arith);
      start = inr (omega arith);
      passed = λ j from below foreign. absurd (omega arith);
      ahead = (omega arith, omega arith, λ j from below. absurd (omega arith));
    }

    opened-Ready :
        (d : ℤ) (q : Process K)
        → Opening K entries D p.world d q.world
        → Returns
            (pure (if leb_ℤ (pos 0) d then some (unread d) else none) q)
            (λ o u. Ready (made o) u)
    opened-Ready d q (inl (neg, same)) =
        let failed : leb_ℤ (pos 0) d ≡ false = ground arith in rw failed (scan-Ready q same)
    opened-Ready d q (inr (nonneg, high, free, others, lists, cursor, left)) =
        let opened : leb_ℤ (pos 0) d ≡ true = ground arith in
        rw opened (
          inr (
            unread d,
            refl,
            refl,
            0,
            D.cursor d q.world,
            unread-IsListing d q.world nonneg high lists cursor,
            omega arith,
            omega arith,
            inr refl,
          ),
          refl,
          λ j i. (
            λ o. sym (ap (λ k. K.getfd k p.world) ((eqb_ℤ-iff d j).0 (ground arith))) ∙ free,
            λ o. others j (ground arith),
          ),
        )

  pub listed-Starts :
      Opens K target entries D
      → Starts target K T limit
          (suc fuel)
          (listed-IsIterator target K T limit top L entries D fuel (omega arith))
          b
  unfolding Builder.iter_from open_iter
  listed-Starts opens m p low high =
      let least : ltb_ℤ m (pos 0) ≡ false = ground arith in
      rw least (elim (Bool-cases (has_dirfd target && b.dirfd)) [
        | inr off ↦ rw off (scan-Ready m p low p (λ j. refl))
        | inl on ↦ rw on (
            Returns-bind _ _ (open_iter target K m p) _
              (Returns-bind _ _ (open_dirfd target K target p) _
                (open_dirfd-Opening K T entries D target p opens) (λ d q. opened-Ready m p low d q))
              (λ o q ready. ready))
      ])
