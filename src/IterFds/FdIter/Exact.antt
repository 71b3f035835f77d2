-- ===== src/IterFds/FdIter/Exact.antt =====
-- `FdIter::next` of src/iterfds/fditer.rs gives open descriptors, unless `possible` is set.
use close_fds.Base.{
  ℕ, zero, suc, ◌≡◌, sym, inl, inr, false, ◌||◌, Option, none, some, arith, ℤ, pos, ◌≤ℤ◌, ◌+ℤ◌,
  leb_ℤ, wrap_int, ok, err, Bool-cases, Option-cases, IfReturns, IfReturns-bind,
}
use mathlib.Core.Path.{subst}
use close_fds.Target.{Target}
use close_fds.Kernel.{Kernel}
use close_fds.Process.{Process}
use close_fds.Sys.{is_fd_valid}
use close_fds.IterFds.DirFd
use close_fds.IterFds.DirFd.{DirFdIter, NextResult}
use close_fds.IterFds.DirFd.Laws.{IsDirectory}
use close_fds.IterFds.DirFd.Exact.{IsExact, IsBacked, GivesOpen, next-GivesOpen}
use close_fds.IterFds.FdIter
use close_fds.IterFds.FdIter.Fused.{answer, next_unread, next_read}
use close_fds.IterFds.FdIter.{FdIter, is_possible_iter, scan}

module _ (target : Target) (K : Kernel) (entries : ℕ) (D : IsDirectory K entries)
    (X : IsExact K entries D) where
  abbrev pub DirectoryBacked : Option DirFdIter → K.World → Type 0
  DirectoryBacked none w = Unit
  DirectoryBacked (some d) w = IsBacked K entries D X d w

  -- The iterator between two calls of `next`.
  abbrev pub OnlyOpen : FdIter → K.World → Type 0
  OnlyOpen it w = (is_possible_iter it ≡ false) × DirectoryBacked it.dirfd_iter w

  abbrev pub FindsOpen : Option ℤ × FdIter → Process K → Type 0
  FindsOpen (none, it) q = Unit
  FindsOpen (some fd, it) q = (pos 0 ≤ℤ K.getfd fd q.world) × OnlyOpen it q.world

  scan-FindsOpen :
      (fuel : ℕ) (m : ℤ) (it : FdIter) (p : Process K)
      → OnlyOpen it p.world
      → IfReturns (scan target K fuel m it p) FindsOpen
  unfolding scan is_fd_valid is_possible_iter
  scan-FindsOpen zero m it p good = tt
  scan-FindsOpen (suc fuel) m it p good = elim (Bool-cases (leb_ℤ it.curfd m)) [
    | inr over ↦ rw over tt
    | inl more ↦ rw more (elim (Bool-cases (it.possible || is_fd_valid K it.curfd p.world)) [
      | inl hit ↦ rw hit (ground (arith, good.0), good)
      | inr miss ↦
          rw miss
            (scan-FindsOpen fuel m (record it { curfd = wrap_int (it.curfd +ℤ pos 1) }) p good)
    ])
  ]

  next_possible-FindsOpen :
      (fuel : ℕ) (it : FdIter) (p : Process K)
      → OnlyOpen it p.world
      → IfReturns (FdIter.next_possible target K fuel it p) FindsOpen
  unfolding FdIter.next_possible FdIter.get_maxfd is_possible_iter
  next_possible-FindsOpen fuel it p good = elim (Option-cases it.maxfd) [
    | inl unknown ↦
        let m = FdIter.get_maxfd_direct target K it p.world in
        rw unknown (scan-FindsOpen fuel m (record it { maxfd = some m }) p good)
    | inr (m, known) ↦ rw known (scan-FindsOpen fuel m (record it { maxfd = some m }) p good)
  ]

  module _ (fuel : ℕ) (it : FdIter) where
    answered :
        (a : NextResult K) (p : Process K)
        → is_possible_iter it ≡ false
        → GivesOpen K entries D X a p
        → IfReturns (answer target K fuel it a p) FindsOpen
    unfolding DirFd.drop_iter is_possible_iter
    answered (ok (some fd), d) p sure (live, backed) = (live, (sure, backed))
    answered (ok none, d) p sure h = tt
    answered (err, d) p sure h = elim (Bool-cases (leb_ℤ (pos 0) d.dirfd)) [
      | inl opened ↦
          rw opened (next_possible-FindsOpen fuel (record it { dirfd_iter = none }) _ (sure, tt))
      | inr gone ↦
          rw gone (next_possible-FindsOpen fuel (record it { dirfd_iter = none }) _ (sure, tt))
    ]

    pub next-FindsOpen :
        (p : Process K) → OnlyOpen it p.world → IfReturns (FdIter.next target K fuel it p) FindsOpen
    next-FindsOpen p good = elim (Option-cases it.dirfd_iter) [
      | inl unread ↦
          subst (λ o. IfReturns o FindsOpen) (sym (next_unread target K fuel it p unread))
            (next_possible-FindsOpen fuel it p good)
      | inr (d, reads) ↦
          subst (λ o. IfReturns o FindsOpen) (sym (next_read target K fuel it d p reads))
            (IfReturns-bind (GivesOpen K entries D X) FindsOpen (DirFd.next K fuel d p)
              (answer target K fuel it)
              (next-GivesOpen K entries D X fuel d p
                (subst (λ o. DirectoryBacked o p.world) reads good.1))
              (λ a q h. answered a q good.0 h))
    ]
