-- ===== src/IterFds/Collected/Exact.antt =====
-- `collect` of an iterator that a builder makes without `possible` (src/iterfds/mod.rs): it gives nothing but
-- open descriptors.
use close_fds.Base.{
  ℕ, zero, suc, ◌+◌, ◌≤◌, ◌≡◌, inl, inr, Bool-cases, true, false, ◌&&◌, Option, none, some, List,
  [], ◌∷◌, arith, ℤ, pos, ◌≤ℤ◌, leb_ℤ, eqb_ℤ, eqb_ℤ-iff, IsInt, Action, pure, ◌>>=◌, ◌>>◌, Returns,
  Returns-bind, Returns-mono, Returns-both, Returns-IfReturns, contains, if◌then◌else◌, replicate,
}
use mathlib.Core.Path.{subst}
use close_fds.Target.{Target, has_dirfd}
use close_fds.Kernel.{Kernel}
use close_fds.Kernel.Laws.{IsTable}
use close_fds.Process.{Process}
use close_fds.IterFds.FdIter
use close_fds.IterFds.FdIter.{FdIter, is_possible_iter}
use close_fds.IterFds.FdIter.Exact.{OnlyOpen, FindsOpen, next-FindsOpen}
use close_fds.IterFds.Builder
use close_fds.IterFds.Builder.{FdIterBuilder}
use close_fds.IterFds.DirFd.{DirFdIter, open_dirfd, open_iter}
use close_fds.IterFds.DirFd.Laws.{IsDirectory, Opening, Opens}
use close_fds.IterFds.DirFd.Exact.{IsExact}
use close_fds.IterFds.DirFd.Opened.{open_dirfd-Opening}
use close_fds.IterFds.FdIter.Limits.{IsBounded}
use close_fds.IterFds.Contract.{owned, Handed, Yields, IsIterator}
use close_fds.IterFds.Steps.{drop_fd_iter-ChangesExactly}
use close_fds.IterFds.Collected.{collected}
use close_fds.IterFds.Collected.Whole.{AreAll, collected-AreAll}
use close_fds.IterFds.Clamped.{clamped, I, iter_from-IsNew}
use close_fds.CloseFds.KeepLoop.Started.{Opened}

module _ (target : Target) (K : Kernel) (T : IsTable K) (limit : ℤ) (entries : ℕ)
    (D : IsDirectory K entries) (X : IsExact K entries D) (fuel : ℕ)
    (I : IsIterator target K limit fuel) where
  -- What is in the list was open, and is not the descriptor of the directory.
  abbrev pub WereOpen : FdIter → K.World → List ℤ → Type 0
  WereOpen it w fds =
      (j : ℤ) → IsInt j → contains fds j ≡ true → (owned it j ≡ false) × (pos 0 ≤ℤ K.getfd j w)

  -- What is open after a call of `next` was open before.
  open_before :
      (it it' : FdIter) (w v : K.World) (j : ℤ)
      → IsInt j
      → Handed target K limit it it' w v
      → owned it' j ≡ false
      → pos 0 ≤ℤ K.getfd j v
      → (owned it j ≡ false) × (pos 0 ≤ℤ K.getfd j w)
  open_before it it' w v j i handed other live = elim (Bool-cases (owned it j)) [
    | inl own ↦ absurd (ground (arith, (handed j i).0 own))
    | inr foreign ↦ (foreign, subst (λ n. pos 0 ≤ℤ n) ((handed j i).2 foreign) live)
  ]

  WereOpen-some :
      (rounds : ℕ) (it it' : FdIter) (fd : ℤ) (fds : List ℤ) (w : K.World) (q : Process K)
      → Handed target K limit it it' w q.world
      → Yields target K limit I.Good rounds it w (some fd) it' q.world
      → FindsOpen target K entries D X (some fd, it') q
      → WereOpen it' q.world fds
      → WereOpen it w (fd ∷ fds)
  WereOpen-some rounds it it' fd fds w q handed yields (live, good) opened j i e =
      elim (Bool-cases (eqb_ℤ fd j)) [
        | inl same ↦
            let at : fd ≡ j = (eqb_ℤ-iff fd j).0 same in
            open_before it it' w q.world j i handed (subst (λ k. owned it' k ≡ false) at yields.3)
              (subst (λ k. pos 0 ≤ℤ K.getfd k q.world) at live)
        | inr other ↦
            let (foreign, before) = opened j i (ground arith) in
            open_before it it' w q.world j i handed foreign before
      ]

  pub collected-WereOpen :
      (rounds : ℕ) (it : FdIter) (p : Process K)
      → I.Good rounds it p.world
      → OnlyOpen target K entries D X it p.world
      → Returns (collected target K rounds fuel it p) (λ fds q. WereOpen it p.world fds)
  unfolding collected
  collected-WereOpen zero it p good only = absurd (omega (arith, I.rounds_lem 0 it p.world good))
  collected-WereOpen (suc rounds) it p good only =
      Returns-bind _ _ (FdIter.next target K fuel it p) _
        (Returns-both _ _ (FdIter.next target K fuel it p) (I.next_lem rounds it p good)
          (next-FindsOpen target K entries D X fuel it p only))
        (after (collected-WereOpen rounds))
    where
      after :
          ((it' : FdIter) (q : Process K)
            → I.Good rounds it' q.world
            → OnlyOpen target K entries D X it' q.world
            → Returns (collected target K rounds fuel it' q) (λ fds u. WereOpen it' q.world fds))
          → (a : Option ℤ × FdIter) (q : Process K)
          → (Handed target K limit it a.1 p.world q.world
              × Yields target K limit I.Good rounds it p.world a.0 a.1 q.world)
            × FindsOpen target K entries D X a q
          → Returns
              ((elim a.0 as (λ _. Action (Process K) (List ℤ)) [
                | none ↦ FdIter.drop_fd_iter target K a.1 >> pure []
                | some fd ↦ (collected target K rounds fuel a.1 >>= λ fds. pure (fd ∷ fds))
              ])
                q)
              (λ fds u. WereOpen it p.world fds)
      after ih (none, it') q h =
          Returns-bind _ _ (FdIter.drop_fd_iter target K it' q) _
            (drop_fd_iter-ChangesExactly target K T limit it' q) (λ _ u drop j i e. cc)
      after ih (some fd, it') q ((handed, yields), finds) =
          Returns-bind _ _ (collected target K rounds fuel it' q) _ (ih it' q yields.5 finds.1)
            (λ fds u opened.
              WereOpen-some rounds it it' fd fds p.world q handed yields finds opened)

module _ (target : Target) (K : Kernel) (T : IsTable K) (limit : ℤ) (top : ℕ)
    (L : IsBounded target K limit top) (entries : ℕ) (D : IsDirectory K entries)
    (X : IsExact K entries D) (fuel : ℕ) (m : ℤ) (builder : FdIterBuilder) (p : Process K)
    (opens : Opens K target entries D) (enough : entries + suc top ≤ fuel) (int : IsInt m)
    (sure : builder.possible ≡ false) where
  abbrev iterator : IsIterator target K limit (suc fuel)
  iterator = I target K T limit top L entries D fuel enough

  abbrev made : Option DirFdIter → FdIter
  made o = record {
    dirfd_iter = o;
    curfd = clamped m;
    possible = builder.possible;
    maxfd = none;
    skip_nfds = builder.skip_nfds;
  }

  made-OnlyOpen :
      (d : ℤ) (q : Process K)
      → Opening K entries D p.world d q.world
      → Returns
          (pure
            (if leb_ℤ (pos 0) d
              then some (record {
                minfd = clamped m;
                dirfd = d;
                dirent_buf = replicate K.dirent_size 0;
                dirent_nbytes = 0;
                dirent_offset = 0;
              })
              else none)
            q)
          (λ o u. OnlyOpen target K entries D X (made o) u.world)
  unfolding is_possible_iter
  made-OnlyOpen d q (inl (neg, same)) =
      let failed : leb_ℤ (pos 0) d ≡ false = ground arith in rw failed (sure, tt)
  made-OnlyOpen d q (inr (nonneg, high, free, others, lists, cursor, left)) =
      let opened : leb_ℤ (pos 0) d ≡ true = ground arith in
      rw opened (sure, (lists, (0, omega arith)))

  iter_from-OnlyOpen :
      Returns
        (Builder.iter_from target K m builder p)
        (λ it q. OnlyOpen target K entries D X it q.world)
  unfolding Builder.iter_from open_iter is_possible_iter
  iter_from-OnlyOpen = (elim (Bool-cases (has_dirfd target && builder.dirfd)) [
    | inr off ↦ rw off (sure, tt)
    | inl on ↦ rw on (
        Returns-bind _ _ (open_iter target K (clamped m) p) _
          (Returns-bind _ _ (open_dirfd target K target p) _
            (open_dirfd-Opening K T entries D target p opens) made-OnlyOpen)
          (λ o q ready. ready))
  ])

  -- What the iterator gives was open before it was made.
  opened_first :
      (it : FdIter) (v : K.World) (fds : List ℤ)
      → Opened K it p.world v
      → WereOpen target K T limit entries D X (suc fuel) iterator it v fds
      → (j : ℤ) → IsInt j
      → contains fds j ≡ true
      → pos 0 ≤ℤ K.getfd j p.world
  opened_first it v fds opened were j i e =
      let (foreign, live) = were j i e in subst (λ n. pos 0 ≤ℤ n) ((opened j i).1 foreign) live

  collected-opened :
      Returns
        ((Builder.iter_from target K m builder >>= collected target K (suc fuel) (suc fuel)) p)
        (λ fds q. (j : ℤ) → IsInt j → contains fds j ≡ true → pos 0 ≤ℤ K.getfd j p.world)
  collected-opened =
      Returns-bind _ _ (Builder.iter_from target K m builder p) _
        (Returns-both _ _ (Builder.iter_from target K m builder p)
          (iter_from-IsNew target K T limit top L entries D fuel enough m p builder opens int)
          (Returns-IfReturns _ (Builder.iter_from target K m builder p) iter_from-OnlyOpen))
        (λ it q ((good, at, opened), only).
          Returns-mono _ _ (collected target K (suc fuel) (suc fuel) it q)
            (collected-WereOpen target K T limit entries D X (suc fuel) iterator (suc fuel) it q
              good only)
            (λ fds u were. opened_first it q.world fds opened were))

  -- Over a kernel and a directory that keep their promises, also on how large a descriptor may be
  -- and that the directory names only open descriptors, on every system, with fuel for the
  -- directory's entries and for more rounds than the largest number `top` that a descriptor may
  -- have, for a `minfd` that is any `c_int` and a builder without `possible`, the calls of
  -- `next` come to an end, and so does the iterator. The descriptors that they gave ascend strictly,
  -- from `minfd` on; all of them were open, and none that was open from `minfd` on is missing, as
  -- far as a number that the clamped soft limit never falls below; and every descriptor is left as
  -- it was, that of the directory too.
  pub collected-exactly_open :
      Returns
        ((Builder.iter_from target K m builder >>= collected target K (suc fuel) (suc fuel)) p)
        (λ fds q.
          AreAll K limit m p.world fds q.world
          × ((j : ℤ) → IsInt j → contains fds j ≡ true → pos 0 ≤ℤ K.getfd j p.world))
  collected-exactly_open =
      let all =
        (Builder.iter_from target K m builder >>= collected target K (suc fuel) (suc fuel)) p in
      Returns-both _ _ all
        (collected-AreAll target K T limit top L entries D fuel m builder p opens enough int)
        (Returns-IfReturns _ all collected-opened)
