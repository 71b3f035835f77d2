-- ===== src/IterFds/Listed.antt =====
-- The iterator that reads a directory, and that scans after an error of the kernel.
pub mod Kept
use close_fds.Base.{
  ℕ, zero, suc, ◌+◌, ◌-◌, ◌≤◌, ◌<◌, ◌≡◌, refl, sym, ◌∙◌, ap, ◌⊎◌, inl, inr, Bool, true, false,
  true≢false, not, ◌&&◌, ◌||◌, Option, none, some, if◌then◌else◌, arith, ℤ, pos, negsuc, ◌≤ℤ◌, ◌<ℤ◌,
  ◌+ℤ◌, +ℤ_parts, leb_ℤ, ltb_ℤ, eqb_ℤ, eqb_ℤ-iff, int_max, IsInt, pos_part, neg_part, wrap_int,
  Action, pure, ◌>>=◌, ◌>>◌, Result, ok, err, Returns, Returns-bind, Returns-mono, Bool-cases,
}
use mathlib.Core.Path.{subst}
use close_fds.Target.{Target, has_nfds, is_netbsd}
use close_fds.Kernel.{Kernel}
use close_fds.Kernel.Laws.{IsTable}
use close_fds.Process.{Process}
use close_fds.Util.Ranges.{IsFd, suc_fd}
use close_fds.IterFds.DirFd
use close_fds.IterFds.DirFd.{DirFdIter}
use close_fds.IterFds.DirFd.Laws.{IsDirectory}
use close_fds.IterFds.DirFd.Listing.{IsListing, IsListing-kept, Listed}
use close_fds.IterFds.DirFd.Refill.{next_loop-Listed}
use close_fds.IterFds.FdIter
use close_fds.IterFds.FdIter.{FdIter, clamp_limit}
use close_fds.IterFds.FdIter.Limits.{IsBounded}
use close_fds.IterFds.Contract.{owned, Handed, Passed, Drained, Yields, IsIterator}
use close_fds.IterFds.Scan.{Scanning, next_scan}
use close_fds.IterFds.FdIter.Bounded.{clamp_limit-bounds}

module _ (target : Target) (K : Kernel) (T : IsTable K) (limit : ℤ) (top : ℕ)
    (L : IsBounded target K limit top) (entries : ℕ) (D : IsDirectory K entries) (fuel : ℕ)
    (enough : top < fuel) where
  -- The directory is read, with fewer entries to come than the fuel is for; the scan that may follow
  -- is counted with them.
  abbrev pub Reading : ℕ → FdIter → K.World → Type 0
  Reading rounds it w =
      (d : DirFdIter) × (it.dirfd_iter ≡ some d)
      × (it.maxfd ≡ none)
      × (count : ℕ) × (low : ℤ) × IsListing K entries D d it.curfd w count low
      × (count + D.left d.dirfd w ≤ fuel)
      × (count + D.left d.dirfd w + suc top < rounds)
      × ((d.minfd <ℤ it.curfd) ⊎ (count ≡ 0))

  abbrev pub Iterating : ℕ → FdIter → K.World → Type 0
  Iterating rounds it w = Scanning target K T limit top L rounds it w ⊎ Reading rounds it w

  abbrev NextIterating : ℕ → FdIter → Process K → Option ((Option ℤ × FdIter) × Process K) → Type 0
  NextIterating rounds it p r = Returns r (λ a q.
      Handed target K limit it a.1 p.world q.world
      × Yields target K limit Iterating rounds it p.world a.0 a.1 q.world)

  -- A scan goes on as a scan.
  scan-Iterating :
      (rounds : ℕ) (it : FdIter) (p : Process K)
      → Scanning target K T limit top L (suc rounds) it p.world
      → NextIterating rounds it p (FdIter.next target K (suc fuel) it p)
  scan-Iterating rounds it p good =
      Returns-mono _ _ (FdIter.next target K (suc fuel) it p)
        (next_scan target K T limit top L fuel enough rounds it p good) widen
    where
      widen :
          (a : Option ℤ × FdIter) (q : Process K)
          → Handed target K limit it a.1 p.world q.world
            × Yields target K limit
                (Scanning target K T limit top L)
                rounds
                it
                p.world
                a.0
                a.1
                q.world
          → Handed target K limit it a.1 p.world q.world
            × Yields target K limit Iterating rounds it p.world a.0 a.1 q.world
      widen (none, it') q h = h
      widen (some fd, it') q (handed, (le, isfd, next, foreign, passed, good')) =
          (handed, (le, isfd, next, foreign, passed, inl good'))

  -- The directory's iterator ended with an error: it is dropped, and the scan goes on at `curfd`.
  module _ (rounds : ℕ) (it : FdIter) (p q : Process K) (d : DirFdIter)
      (reads : it.dirfd_iter ≡ some d) (unknown : it.maxfd ≡ none) (low : pos 0 ≤ℤ it.curfd)
      (live : pos 0 ≤ℤ d.dirfd) (few : suc top < suc rounds) where
    abbrev rest : FdIter
    rest = record it { dirfd_iter = none }

    fallback :
        ((j : ℤ) → K.getfd j q.world ≡ (if eqb_ℤ d.dirfd j then negsuc 0 else K.getfd j p.world))
        → NextIterating rounds it p (FdIter.next target K (suc fuel) rest q)
    fallback closed_dir =
        Returns-mono _ _ (FdIter.next target K (suc fuel) rest q)
          (scan-Iterating rounds rest q ((refl, low, inl unknown), omega arith)) back
      where
        own : (j : ℤ) → owned it j ≡ eqb_ℤ d.dirfd j
        own j = rw reads (ground arith)

        free :
            (j : ℤ)
            → owned it j ≡ false
            → K.getfd j q.world ≡ negsuc 0
            → K.getfd j p.world ≡ negsuc 0
        free j o e = ground (arith, closed_dir j, own j)

        hand :
            (it' : FdIter) (u : K.World)
            → Handed target K limit rest it' q.world u
            → Handed target K limit it it' p.world u
        hand it' u h j i = (
          λ o. ground (arith, h j i, closed_dir j, own j),
          λ o. ground (arith, h j i),
          λ o. ground (arith, h j i, closed_dir j, own j),
        )

        back :
            (a : Option ℤ × FdIter) (u : Process K)
            → Handed target K limit rest a.1 q.world u.world
              × Yields target K limit Iterating rounds rest q.world a.0 a.1 u.world
            → Handed target K limit it a.1 p.world u.world
              × Yields target K limit Iterating rounds it p.world a.0 a.1 u.world
        back (none, it') u (h, drained) =
            (hand it' u.world h, λ j from le o. free j o (drained j from le refl))
        back (some fd, it') u (h, (le, isfd, next, foreign, passed, good)) = (
          hand it' u.world h,
          (le, isfd, next, foreign, λ j from lt le' o. free j o (passed j from lt le' refl), good),
        )

  -- What `next` makes of the answer of the directory's iterator.
  module _ (rounds : ℕ) (it : FdIter) (p : Process K) (d : DirFdIter)
      (reads : it.dirfd_iter ≡ some d) (unknown : it.maxfd ≡ none) (low : pos 0 ≤ℤ it.curfd)
      (live : (pos 0 ≤ℤ d.dirfd) × (d.dirfd ≤ℤ int_max)) (before : ℕ) (small : before ≤ fuel)
      (few : before + suc top < suc rounds) where
    own : (j : ℤ) → owned it j ≡ eqb_ℤ d.dirfd j
    own j = rw reads (ground arith)

    abbrev answer : Result (Option ℤ) × DirFdIter → Action (Process K) (Option ℤ × FdIter)
    answer (r, d') = elim r [
      | ok (some fd) ↦
          pure (some fd, record it { dirfd_iter = some d'; curfd = wrap_int (fd +ℤ pos 1) })
      | ok none ↦ pure (none, record it { dirfd_iter = some d' })
      | err ↦
          DirFd.drop_iter K d'
          >> FdIter.next_possible target K (suc fuel) (record it { dirfd_iter = none })
    ]

    answered :
        (r : Result (Option ℤ)) (d' : DirFdIter) (q : Process K)
        → Listed K entries D before d.dirfd it.curfd p.world (r, d') q.world
        → NextIterating rounds it p (answer (r, d') q)
    unfolding DirFd.drop_iter FdIter.next FdIter.next_possible
    answered (ok (some fd)) d' q
          (same, table, le, lt, foreign, passed, (count, lo, l, fewer, began)) =
        let next : wrap_int (fd +ℤ pos 1) ≡ fd +ℤ pos 1 = suc_fd fd (omega arith, omega arith) in
        let own' : (j : ℤ) → eqb_ℤ d'.dirfd j ≡ eqb_ℤ d.dirfd j = λ j. ap (λ i. eqb_ℤ i j) same in
        let left' : D.left d'.dirfd q.world ≡ D.left d.dirfd q.world =
          ap (λ i. D.left i q.world) same in
        (
          λ j i. (
            λ o. inl (ground (arith, own j, own' j)),
            λ o. ground (arith, own j, own' j),
            λ o. table j,
          ),
          (
            le,
            (omega arith, omega arith),
            next,
            ground (arith, own' fd),
            λ j from below upto o. passed j from below (ground (arith, own j)),
            inr (
              d',
              refl,
              unknown,
              count,
              lo,
              subst (λ c. IsListing K entries D d' c q.world count lo) (sym next) l,
              omega (arith, fewer, left'),
              omega (arith, fewer, left'),
              inl (
                  subst (λ c. d'.minfd <ℤ c) (sym next)
                    (omega (arith, +ℤ_parts fd (pos 1), began))),
            ),
          ),
        )
    answered (ok none) d' q (gone, shut, table, free) = (
      λ j i. (
        λ o. inr (
            sym (ap (λ k. K.getfd k q.world) ((eqb_ℤ-iff d.dirfd j).0 (ground (arith, own j))))
            ∙ shut),
        λ o. ground (arith, ap (λ n. leb_ℤ (pos 0) n) gone),
        λ o. table j (ground (arith, own j)),
      ),
      λ j from upto o.
          free j from
            (omega (arith, L.soft p.world, clamp_limit-bounds target K (K.open_max p.world)))
            (ground (arith, own j)),
    )
    answered err d' q (same, table) =
        let open_dir : leb_ℤ (pos 0) d'.dirfd ≡ true =
          ap (λ n. leb_ℤ (pos 0) n) same ∙ ground arith in
        rw open_dir (
          fallback rounds it p (record q { world = K.close d'.dirfd q.world }) d reads unknown low
            live.0 (omega arith)
            (λ j. ground (arith, T.getfd-close d'.dirfd j q.world, table j, own' j)))
      where
        own' : (j : ℤ) → eqb_ℤ d'.dirfd j ≡ eqb_ℤ d.dirfd j
        own' j = ap (λ i. eqb_ℤ i j) same

    next_dir : FdIter.next target K (suc fuel) it p ≡ (DirFd.next_loop K (suc fuel) d >>= answer) p
    unfolding FdIter.next DirFd.next
    next_dir =
        let shown : ltb_ℤ d.dirfd (pos 0) ≡ false = ground (arith, live.0) in rw (reads, shown) refl

    next_answered :
        (count : ℕ) (lo : ℤ)
        → IsListing K entries D d it.curfd p.world count lo
        → count + D.left d.dirfd p.world ≤ before
        → NextIterating rounds it p (FdIter.next target K (suc fuel) it p)
    next_answered count lo l within = subst (NextIterating rounds it p) (sym next_dir) (
        Returns-bind _ _ (DirFd.next_loop K (suc fuel) d p) answer
          (next_loop-Listed K T entries D (suc fuel) before d it.curfd p count lo l (omega arith)
            within)
          (λ (r, d') q listed. answered r d' q listed))

  pub next-Iterating :
      (rounds : ℕ) (it : FdIter) (p : Process K)
      → Iterating (suc rounds) it p.world
      → NextIterating rounds it p (FdIter.next target K (suc fuel) it p)
  next-Iterating rounds it p (inl scanning) = scan-Iterating rounds it p scanning
  next-Iterating rounds it p (inr (d, reads, unknown, count, low, l, small, few, began)) =
      next_answered rounds it p d reads unknown l.from_min.0 l.live (count + D.left d.dirfd p.world)
        small few count low l (omega arith)
