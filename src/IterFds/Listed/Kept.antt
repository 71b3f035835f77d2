-- ===== src/IterFds/Listed/Kept.antt =====
-- The iterator that reads a directory fills the interface `IsIterator`: what a loop does between two calls
-- of `next` leaves it ready.
use close_fds.Base.{
  ℕ, suc, ◌≤◌, ◌<◌, ◌≡◌, ◌∙◌, inl, inr, false, ◌&&◌, none, some, arith, ℤ, pos, negsuc, ◌≤ℤ◌, leb_ℤ,
  eqb_ℤ,
}
use mathlib.Core.Path.{subst}
use close_fds.Target.{Target}
use close_fds.Kernel.{Kernel}
use close_fds.Kernel.Laws.{IsTable}
use close_fds.IterFds.DirFd.{DirFdIter}
use close_fds.IterFds.DirFd.Laws.{IsDirectory}
use close_fds.IterFds.DirFd.Listing.{IsListing-kept}
use close_fds.IterFds.FdIter.{FdIter}
use close_fds.IterFds.FdIter.Limits.{IsBounded}
use close_fds.IterFds.Contract.{IsIterator}
use close_fds.IterFds.Scan.{Scanning-kept}
use close_fds.IterFds.Listed.{Iterating, next-Iterating}

module _ (target : Target) (K : Kernel) (T : IsTable K) (limit : ℤ) (top : ℕ)
    (L : IsBounded target K limit top) (entries : ℕ) (D : IsDirectory K entries) (fuel : ℕ)
    (enough : top < fuel) where
  -- What leaves the directory as it is leaves the iterator ready.
  pub Reading-kept :
      (rounds : ℕ) (it : FdIter) (w v : K.World)
      → ((j : ℤ) → K.getfd j w ≡ negsuc 0 → K.getfd j v ≡ negsuc 0)
      → ((d : DirFdIter)
          → it.dirfd_iter ≡ some d
          → pos 0 ≤ℤ d.dirfd
          → D.Lists d.dirfd w
          → D.Lists d.dirfd v
            × (D.cursor d.dirfd v ≡ D.cursor d.dirfd w)
            × (D.left d.dirfd v ≡ D.left d.dirfd w))
      → Iterating target K T limit top L entries D fuel enough rounds it w
      → Iterating target K T limit top L entries D fuel enough rounds it v
  Reading-kept rounds it w v kept same (inl scanning) =
      inl (Scanning-kept target K T limit top L rounds it w v kept scanning)
  Reading-kept rounds it w v kept same (inr (d, reads, unknown, count, low, l, small, few, began)) =
      let (lists, cursor, left) = same d reads l.live.0 l.lists in
      inr (
        d,
        reads,
        unknown,
        count,
        low,
        IsListing-kept K entries D d it.curfd w v count low kept lists cursor l,
        omega arith,
        omega arith,
        began,
      )

  pub Iterating-rounds :
      (rounds more : ℕ) (it : FdIter) (w : K.World)
      → rounds ≤ more
      → Iterating target K T limit top L entries D fuel enough rounds it w
      → Iterating target K T limit top L entries D fuel enough more it w
  Iterating-rounds rounds more it w le (inl (scan, few)) = inl (scan, omega arith)
  Iterating-rounds rounds more it w le (inr (d, reads, unknown, count, low, l, small, few, began)) =
      inr (d, reads, unknown, count, low, l, small, omega arith, began)

  pub Iterating-some :
      (rounds : ℕ) (it : FdIter) (w : K.World)
      → Iterating target K T limit top L entries D fuel enough rounds it w
      → 0 < rounds
  Iterating-some rounds it w (inl (scan, few)) = omega arith
  Iterating-some rounds it w (inr (d, reads, unknown, count, low, l, small, few, began)) =
      omega arith

  abbrev pub listed-IsIterator : IsIterator target K limit (suc fuel)
  listed-IsIterator = record {
    Good = Iterating target K T limit top L entries D fuel enough;
    rounds_lem = Iterating-some;
    more_lem = Iterating-rounds;
    next_lem = next-Iterating target K T limit top L entries D fuel enough;
    close_lem = λ rounds it w fd good foreign.
        Reading-kept rounds it w (K.close fd w) (λ j e. ground (arith, T.getfd-close fd j w))
          (λ d reads live lists. D.close_lem d.dirfd fd w lists (
            ground (
              arith,
              subst
                  (λ o.
                    elim o [ none ↦ false | some d ↦ leb_ℤ (pos 0) d.dirfd && eqb_ℤ d.dirfd fd ]
                    ≡ false)
                  reads foreign,
            )))
          good;
    setfd_lem = λ rounds it w fd flags good.
        Reading-kept rounds it w (K.setfd fd flags w) (λ j. T.setfd_absent fd flags j w)
          (λ d reads live lists. D.setfd_lem d.dirfd fd flags w lists) good;
    refused_lem = λ rounds it w first last flags good refused.
        Reading-kept rounds it w (K.close_range first last flags w).1
          (λ j e. T.close_range_failed first last flags j w refused ∙ e)
          (λ d reads live lists. D.refused_lem d.dirfd first last flags w lists refused) good;
  }
