-- ===== src/IterFds/Scan.antt =====
-- The iterator without a directory: it looks at every number up to the largest descriptor that may be open,
-- on every system, and gives those that are open, or all of them with `possible` set.
use close_fds.Base.{
  one_part, ℕ, suc, ◌-◌, ◌<◌, ◌≡◌, refl, sym, ◌∙◌, ap, ◌⊎◌, inl, inr, false, Option, none, some,
  arith, ℤ, pos, negsuc, ◌≤ℤ◌, ◌+ℤ◌, +ℤ_parts, leb_ℤ, pos_part, Returns, Returns-mono, Bool-cases,
}
use mathlib.Core.Path.{subst}
use close_fds.Target.{Target}
use close_fds.Kernel.{Kernel}
use close_fds.Kernel.Laws.{IsTable}
use close_fds.Process.{Process}
use close_fds.IterFds.DirFd.{DirFdIter}
use close_fds.IterFds.FdIter
use close_fds.IterFds.FdIter.{FdIter, scan, get_maxfd_direct}
use close_fds.IterFds.FdIter.Limits.{IsBounded}
use close_fds.IterFds.FdIter.Bounded.{IsMax, invalid_absent, get_maxfd_direct-IsMax}
use close_fds.IterFds.FdIter.Search.{IsFirst, scan-IsFirst}
use close_fds.IterFds.Contract.{owned, Handed, Yields, IsIterator}

abbrev directory : FdIter → Option DirFdIter
directory it = it.dirfd_iter

abbrev position : FdIter → ℤ
position it = it.curfd

unread_own : (it : FdIter) (j : ℤ) → it.dirfd_iter ≡ none → owned it j ≡ false
unread_own it j unread = rw unread refl

-- The rest of the fields and the table of descriptors stay as they are.
unread-Handed :
    (target : Target) (K : Kernel) (limit : ℤ) (it it' : FdIter) (w : K.World)
    → it.dirfd_iter ≡ none
    → it'.dirfd_iter ≡ none
    → Handed target K limit it it' w w
unread-Handed target K limit it it' w unread unread' j i =
    let before = unread_own it j unread in
    let after = unread_own it' j unread' in
    (λ o. absurd (ground arith), λ o. absurd (ground arith), λ o. refl)

module _ (target : Target) (K : Kernel) (T : IsTable K) (limit : ℤ) (top : ℕ)
    (L : IsBounded target K limit top) where
  abbrev pub IsScan : FdIter → K.World → Type 0
  IsScan it w =
      (it.dirfd_iter ≡ none)
      × (pos 0 ≤ℤ it.curfd)
      × ((it.maxfd ≡ none) ⊎ ((m : ℤ) × (it.maxfd ≡ some m) × IsMax target K T limit top L m w))

  -- The scan, with the descriptors that it has yet to look at fewer than a number.
  abbrev pub Scanning : ℕ → FdIter → K.World → Type 0
  Scanning rounds it w = IsScan it w × (suc top - pos_part it.curfd < rounds)

  pub Scanning-kept :
      (rounds : ℕ) (it : FdIter) (w v : K.World)
      → ((j : ℤ) → K.getfd j w ≡ negsuc 0 → K.getfd j v ≡ negsuc 0)
      → Scanning rounds it w
      → Scanning rounds it v
  Scanning-kept rounds it w v kept ((unread, low, inl unknown), few) =
      ((unread, low, inl unknown), few)
  Scanning-kept rounds it w v kept ((unread, low, inr (m, known, (small, above, least))), few) = (
    (unread, low, inr (m, known, (small, λ j over upto. kept j (above j over upto), least))),
    few,
  )

  -- What `next` promises.
  abbrev pub NextOf : ℕ → FdIter → Process K → Option ((Option ℤ × FdIter) × Process K) → Type 0
  NextOf rounds it p r = Returns r (λ a q.
      Handed target K limit it a.1 p.world q.world
      × Yields target K limit Scanning rounds it p.world a.0 a.1 q.world)

  -- What the search finds is what `next` promises.
  IsFirst-NextOf :
      (rounds : ℕ) (it : FdIter) (m : ℤ) (p : Process K) (a : Option ℤ × FdIter)
      → it.dirfd_iter ≡ none
      → pos 0 ≤ℤ it.curfd
      → IsMax target K T limit top L m p.world
      → suc top - pos_part it.curfd < suc rounds
      → IsFirst target K m (record it { maxfd = some m }) p a
      → NextOf rounds it p (some (a, p))
  IsFirst-NextOf rounds it m p (none, it') unread low (small, above, least) few
        (left, over, first) =
      (
        unread-Handed target K limit it it' p.world unread (ap directory left ∙ unread),
        λ j from upto o. elim (Bool-cases (leb_ℤ j m)) [
          | inl within ↦
              let miss = first j from (ground arith) in
              invalid_absent target K T limit top L j p.world (ground arith)
          | inr beyond ↦ above j (ground arith) upto
        ],
      )
  IsFirst-NextOf rounds it m p (some fd, it') unread low (small, above, least) few
        (from, upto, hit, before, left) =
      let next : it'.curfd ≡ fd +ℤ pos 1 = ap position left in
      (
        unread-Handed target K limit it it' p.world unread (ap directory left ∙ unread),
        (
          from,
          (omega arith, omega (arith, L.tops)),
          next,
          unread_own it' fd (ap directory left ∙ unread),
          λ j start under le o.
              let miss = before j start under in
              invalid_absent target K T limit top L j p.world (ground arith),
          subst (λ i. Scanning rounds i p.world) (sym left)
              (
                (unread, omega (arith, +ℤ_parts fd (pos 1)), inr (m, refl, (small, above, least))),
                omega (
                  arith,
                  +ℤ_parts fd (pos 1),
                  one_part fd,
                  one_part it.curfd,
                  one_part (fd +ℤ pos 1),
                ),
              ),
        ),
      )

  -- The bound that `next` finds or remembers, and its search up to there.
  next-scan :
      (fuel : ℕ) (it : FdIter) (p : Process K)
      → IsScan it p.world
      → (m : ℤ) × IsMax target K T limit top L m p.world
        × (FdIter.next target K fuel it p ≡ scan target K fuel m (record it { maxfd = some m }) p)
  unfolding FdIter.next FdIter.next_possible FdIter.get_maxfd
  next-scan fuel it p (unread, low, inl unknown) = (
    get_maxfd_direct target K it p.world,
    get_maxfd_direct-IsMax target K T limit top L it p.world,
    rw (unread, unknown) refl,
  )
  next-scan fuel it p (unread, low, inr (m, known, bound)) = (m, bound, rw (unread, known) refl)

  module _ (fuel : ℕ) (enough : top < fuel) where
    pub next_scan :
        (rounds : ℕ) (it : FdIter) (p : Process K)
        → Scanning (suc rounds) it p.world
        → NextOf rounds it p (FdIter.next target K (suc fuel) it p)
    next_scan rounds it p (good, few) =
        let (m, bound, same) = next-scan (suc fuel) it p good in
        subst (NextOf rounds it p) (sym same) (
          Returns-mono _ _ (scan target K (suc fuel) m (record it { maxfd = some m }) p)
            (scan-IsFirst target K m fuel (record it { maxfd = some m }) p good.1
              (omega (arith, bound.0, L.tops)) (omega (arith, bound.0)))
            (λ a q (first, same_process).
              subst (λ u. NextOf rounds it p (some (a, u))) (sym same_process)
                (IsFirst-NextOf rounds it m p a good.0 good.1 bound few first)))

    abbrev pub scan-IsIterator : IsIterator target K limit (suc fuel)
    scan-IsIterator = record {
      Good = Scanning;
      rounds_lem = λ rounds it w good. omega (arith, good.1);
      more_lem = λ rounds more it w le good. (good.0, omega (arith, good.1));
      next_lem = next_scan;
      close_lem = λ rounds it w fd good foreign.
          Scanning-kept rounds it w (K.close fd w) (λ j e. ground (arith, T.getfd-close fd j w))
            good;
      setfd_lem = λ rounds it w fd flags good.
          Scanning-kept rounds it w (K.setfd fd flags w) (λ j. T.setfd_absent fd flags j w) good;
      refused_lem = λ rounds it w first last flags good refused.
          Scanning-kept rounds it w (K.close_range first last flags w).1
            (λ j e. T.close_range_failed first last flags j w refused ∙ e) good;
    }
