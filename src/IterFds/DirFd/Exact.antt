-- ===== src/IterFds/DirFd/Exact.antt =====
-- A directory that names nothing but open descriptors, and what `DirFdIter::next` of src/iterfds/dirfd.rs
-- then gives, while nothing is closed.
use close_fds.Base.{
  ℕ, zero, suc, ◌+◌, ◌≤◌, ◌<◌, ◌≡◌, sym, inl, inr, not, ◌&&◌, none, some, List, leb, arith, ℤ, pos,
  ◌≤ℤ◌, leb_ℤ, ltb_ℤ, eqb_ℤ, Action, ok, err, drop, Bool-cases, Option-cases, IfReturns,
}
use mathlib.Core.Path.{subst}
use close_fds.Kernel.{Kernel}
use close_fds.Process.{Process}
use close_fds.IterFds.DirFd
use close_fds.IterFds.DirFd.{DirFdIter, NextResult, parse_int_bytes, take_entry, refill, next_loop}
use close_fds.IterFds.DirFd.Laws.{entry_name, IsDirectory}
use close_fds.IterFds.DirFd.Listing.{behind, name, take_none, take_other, take_some}
use close_fds.IterFds.DirFd.Refill.{ℤ-sign, called, refill_end, refill_more, refill_failed}

module _ (K : Kernel) where
  -- The entries from an offset on, in a buffer of which `nbytes` are filled, name open descriptors, if
  -- any.
  abbrev pub Backed : List ℕ → ℕ → K.World → ℕ → ℕ → Type 0
  Backed buf nbytes w zero offset = nbytes ≤ offset
  Backed buf nbytes w (suc count) offset =
      ((fd : ℤ)
        → parse_int_bytes (entry_name K (drop offset buf)) ≡ some fd
        → pos 0 ≤ℤ K.getfd fd w)
      × Backed buf nbytes w count (offset + K.d_reclen (drop offset buf))

  -- Only descriptors that are open are named when the directory is read.
  pub record IsExact (entries : ℕ) (D : IsDirectory K entries) : Type 0 where
    pub backed_lem :
        (d : ℤ) (buf : List ℕ) (w : K.World) (n : ℕ)
        → D.Lists d w
        → (K.getdents d buf w).0 ≡ pos (suc n)
        → (count : ℕ) × Backed (K.getdents d buf w).1 (suc n) (K.getdents d buf w).2 count 0

  module _ (entries : ℕ) (D : IsDirectory K entries) (X : IsExact entries D) where
    -- The iterator between two calls of `next`.
    abbrev pub IsBacked : DirFdIter → K.World → Type 0
    IsBacked it w =
        D.Lists it.dirfd w
        × ((count : ℕ) × Backed it.dirent_buf it.dirent_nbytes w count it.dirent_offset)

    abbrev pub GivesOpen : NextResult K → Process K → Type 0
    GivesOpen (ok (some fd), it) q = (pos 0 ≤ℤ K.getfd fd q.world) × IsBacked it q.world
    GivesOpen (ok none, it) q = Unit
    GivesOpen (err, it) q = Unit

    module _ (continue : DirFdIter → Action (Process K) (NextResult K))
        (ih : (it : DirFdIter) (p : Process K)
          → IsBacked it p.world
          → IfReturns (continue it p) GivesOpen) where
      take_entry-GivesOpen :
          (it : DirFdIter) (p : Process K)
          → it.dirent_offset < it.dirent_nbytes
          → IsBacked it p.world
          → IfReturns (take_entry K continue it p) GivesOpen
      take_entry-GivesOpen it p more (lists, (zero, used)) = absurd (omega arith)
      take_entry-GivesOpen it p more (lists, (suc count, (backed, ahead))) =
          elim (Option-cases (parse_int_bytes (name K continue it p))) [
            | inl e ↦
                subst (λ o. IfReturns o GivesOpen) (sym (take_none K continue it p e))
                  (ih (behind K continue it p) p (lists, (count, ahead)))
            | inr (fd, e) ↦ elim (Bool-cases (leb_ℤ it.minfd fd && not (eqb_ℤ fd it.dirfd))) [
              | inl hit ↦
                  subst (λ o. IfReturns o GivesOpen) (sym (take_some K continue it p fd e hit))
                    (backed fd e, (lists, (count, ahead)))
              | inr out ↦
                  subst (λ o. IfReturns o GivesOpen) (sym (take_other K continue it p fd e out))
                    (ih (behind K continue it p) p (lists, (count, ahead)))
            ]
          ]

      refill-GivesOpen :
          (it : DirFdIter) (p : Process K)
          → D.Lists it.dirfd p.world
          → IfReturns (refill K (take_entry K continue) it p) GivesOpen
      refill-GivesOpen it p lists = elim (ℤ-sign (called K (take_entry K continue) it p).0) [
        | inl over ↦
            subst (λ o. IfReturns o GivesOpen)
              (sym (refill_end K (take_entry K continue) it p over)) tt
        | inr (inl (n, more)) ↦
            subst (λ o. IfReturns o GivesOpen)
              (sym (refill_more K (take_entry K continue) it p n more))
              (take_entry-GivesOpen _ _ (omega arith) (
                ((D.read_lem it.dirfd it.dirent_buf p.world lists).2 n more).0,
                X.backed_lem it.dirfd it.dirent_buf p.world n lists more,
              ))
        | inr (inr (n, failed)) ↦
            subst (λ o. IfReturns o GivesOpen)
              (sym (refill_failed K (take_entry K continue) it p n failed)) tt
      ]

    next_loop-GivesOpen :
        (fuel : ℕ) (it : DirFdIter) (p : Process K)
        → IsBacked it p.world
        → IfReturns (next_loop K fuel it p) GivesOpen
    unfolding next_loop
    next_loop-GivesOpen zero it p backed = tt
    next_loop-GivesOpen (suc fuel) it p backed =
        elim (Bool-cases (leb it.dirent_nbytes it.dirent_offset)) [
          | inl used ↦
              rw used (refill-GivesOpen (next_loop K fuel) (next_loop-GivesOpen fuel) it p backed.0)
          | inr more ↦ rw more (
              take_entry-GivesOpen (next_loop K fuel) (next_loop-GivesOpen fuel) it p (ground arith)
                backed)
        ]

    pub next-GivesOpen :
        (fuel : ℕ) (it : DirFdIter) (p : Process K)
        → IsBacked it p.world
        → IfReturns (DirFd.next K fuel it p) GivesOpen
    unfolding DirFd.next
    next-GivesOpen fuel it p backed = elim (Bool-cases (ltb_ℤ it.dirfd (pos 0))) [
      | inl shut ↦ rw shut tt
      | inr opened ↦ rw opened (next_loop-GivesOpen fuel it p backed)
    ]
