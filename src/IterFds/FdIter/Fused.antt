-- ===== src/IterFds/FdIter/Fused.antt =====
-- `impl FusedIterator for FdIter` of src/iterfds/fditer.rs: behind its end an iterator stays there.
use close_fds.Base.{
  ◌⊎◌, IfReturns, IfReturns-bind, ◌>>◌, ℕ, zero, suc, ◌≡◌, refl, sym, ap, inl, inr, true, false,
  not, ◌&&◌, ◌||◌, Option, none, some, leb, ℤ, pos, ◌+ℤ◌, leb_ℤ, ltb_ℤ, eqb_ℤ, Action, pure, ◌>>=◌,
  ok, err, Bool-cases, Option-cases, wrap_int,
}
use mathlib.Core.Path.{subst}
use close_fds.Target.{Target}
use close_fds.Kernel.{Kernel}
use close_fds.Process.{Process}
use close_fds.Sys.{is_fd_valid}
use close_fds.IterFds.DirFd
use close_fds.IterFds.DirFd.{DirFdIter, NextResult, parse_int_bytes, take_entry, refill, next_loop}
use close_fds.IterFds.DirFd.Listing.{behind, name, take_none, take_other, take_some}
use close_fds.IterFds.DirFd.Refill.{ℤ-sign, called, refill_end, refill_more, refill_failed}
use close_fds.IterFds.FdIter
use close_fds.IterFds.FdIter.{FdIter, scan, get_maxfd}

-- What holds of a result, if there is one.
abbrev pub IfAny : {S A : Type 0} → (A → Type 0) → Option (A × S) → Type 0
IfAny P o = IfReturns o (λ a s. P a)

IfAny-mono :
    {S A : Type 0} (P Q : A → Type 0) (o : Option (A × S))
    → ((a : A) → P a → Q a)
    → IfAny P o
    → IfAny Q o
IfAny-mono P Q none k h = tt
IfAny-mono P Q (some (a, s)) k h = k a h

module _ (K : Kernel) where
  -- At the end the directory is closed.
  abbrev Shut : NextResult K → Type 0
  Shut (ok none, it) = ltb_ℤ it.dirfd (pos 0) ≡ true
  Shut (ok (some fd), it) = Unit
  Shut (err, it) = Unit

  module _ (continue : DirFdIter → Action (Process K) (NextResult K))
      (ih : (it : DirFdIter) (p : Process K) → IfAny Shut (continue it p)) where
    take_entry-Shut : (it : DirFdIter) (p : Process K) → IfAny Shut (take_entry K continue it p)
    take_entry-Shut it p = elim (Option-cases (parse_int_bytes (name K continue it p))) [
      | inl e ↦
          subst (IfAny Shut) (sym (take_none K continue it p e)) (ih (behind K continue it p) p)
      | inr (fd, e) ↦ elim (Bool-cases (leb_ℤ it.minfd fd && not (eqb_ℤ fd it.dirfd))) [
        | inl hit ↦ subst (IfAny Shut) (sym (take_some K continue it p fd e hit)) tt
        | inr out ↦
            subst (IfAny Shut) (sym (take_other K continue it p fd e out))
              (ih (behind K continue it p) p)
      ]
    ]

    refill-Shut : (it : DirFdIter) (p : Process K) → IfAny Shut (refill K continue it p)
    refill-Shut it p = elim (ℤ-sign (called K continue it p).0) [
      | inl over ↦ subst (IfAny Shut) (sym (refill_end K continue it p over)) refl
      | inr (inl (n, more)) ↦ subst (IfAny Shut) (sym (refill_more K continue it p n more)) (ih _ _)
      | inr (inr (n, failed)) ↦ subst (IfAny Shut) (sym (refill_failed K continue it p n failed)) tt
    ]

  next_loop-Shut : (fuel : ℕ) (it : DirFdIter) (p : Process K) → IfAny Shut (next_loop K fuel it p)
  unfolding next_loop
  next_loop-Shut zero it p = tt
  next_loop-Shut (suc fuel) it p = elim (Bool-cases (leb it.dirent_nbytes it.dirent_offset)) [
    | inl used ↦ rw used (
        refill-Shut (take_entry K (next_loop K fuel))
          (λ i s. take_entry-Shut (next_loop K fuel) (next_loop-Shut fuel) i s) it p)
    | inr more ↦ rw more (take_entry-Shut (next_loop K fuel) (next_loop-Shut fuel) it p)
  ]

  next-Shut : (fuel : ℕ) (it : DirFdIter) (p : Process K) → IfAny Shut (DirFd.next K fuel it p)
  unfolding DirFd.next
  next-Shut fuel it p = elim (Bool-cases (ltb_ℤ it.dirfd (pos 0))) [
    | inl shut ↦ rw shut shut
    | inr opened ↦ rw opened (next_loop-Shut fuel it p)
  ]

module _ (target : Target) (K : Kernel) where
  -- A call of `next` ends the iterator again, whatever has happened to the process.
  abbrev Ended : Option ℤ × FdIter → Type 0
  Ended (none, it) =
      (fuel : ℕ) (p : Process K) → FdIter.next target K (suc fuel) it p ≡ some ((none, it), p)
  Ended (some fd, it) = Unit

  -- What is left of an iterator that searched up to `m`.
  abbrev pub Searched : ℤ → Option ℤ × FdIter → Type 0
  Searched m (none, it) = (it.dirfd_iter ≡ none) × (it.maxfd ≡ some m) × (leb_ℤ it.curfd m ≡ false)
  Searched m (some fd, it) = Unit

  scan-Searched :
      (fuel : ℕ) (m : ℤ) (it : FdIter) (p : Process K)
      → it.dirfd_iter ≡ none
      → it.maxfd ≡ some m
      → IfAny (Searched m) (scan target K fuel m it p)
  unfolding scan
  scan-Searched zero m it p unread known = tt
  scan-Searched (suc fuel) m it p unread known = elim (Bool-cases (leb_ℤ it.curfd m)) [
    | inr over ↦ rw over (unread, known, over)
    | inl more ↦ rw more (elim (Bool-cases (it.possible || is_fd_valid K it.curfd p.world)) [
      | inl hit ↦ rw hit tt
      | inr miss ↦
          rw miss (
            scan-Searched fuel m (record it { curfd = wrap_int (it.curfd +ℤ pos 1) }) p unread
              known)
    ])
  ]

  -- A bound that the iterator knew, or that it has asked for.
  abbrev pub LimitOf : FdIter → ℤ → Type 0
  LimitOf it m =
      (it.maxfd ≡ some m)
      ⊎ ((i : FdIter) × (w : K.World) × (m ≡ FdIter.get_maxfd_direct target K i w))

  -- The directory was read to its end, or the search came to its end.
  abbrev pub AtEnd : FdIter → Option ℤ × FdIter → Type 0
  AtEnd it (some fd, it') = Unit
  AtEnd it (none, it') =
      ((d : DirFdIter) × (it'.dirfd_iter ≡ some d) × (ltb_ℤ d.dirfd (pos 0) ≡ true))
      ⊎ ((m : ℤ) × LimitOf it m × Searched m (none, it'))

  AtEnd-Ended : (it : FdIter) (a : Option ℤ × FdIter) → AtEnd it a → Ended a
  unfolding FdIter.next FdIter.next_possible FdIter.get_maxfd scan DirFd.next
  AtEnd-Ended it (some fd, it') h = tt
  AtEnd-Ended it (none, it') (inl (d, reads, shut)) = λ fuel p. rw (reads, shut) refl
  AtEnd-Ended it (none, it') (inr (m, of, (unread, known, over))) =
      λ fuel p. rw (unread, known, over) refl

  Searched-AtEnd :
      (it : FdIter) (m : ℤ) (a : Option ℤ × FdIter) → LimitOf it m → Searched m a → AtEnd it a
  Searched-AtEnd it m (some fd, it') of h = tt
  Searched-AtEnd it m (none, it') of h = inr (m, of, h)

  next_possible-AtEnd :
      (fuel : ℕ) (it : FdIter) (p : Process K)
      → it.dirfd_iter ≡ none
      → IfAny (AtEnd it) (FdIter.next_possible target K fuel it p)
  unfolding FdIter.next_possible FdIter.get_maxfd
  next_possible-AtEnd fuel it p unread = elim (Option-cases it.maxfd) [
    | inl unknown ↦
        let m = FdIter.get_maxfd_direct target K it p.world in
        subst (IfAny (AtEnd it)) (sym (the_scan m (record it { maxfd = some m }) (rw unknown refl)))
          (searched m (inr (it, p.world, refl)))
    | inr (m, known) ↦
        subst (IfAny (AtEnd it)) (sym (the_scan m (record it { maxfd = some m }) (rw known refl)))
          (searched m (inl known))
  ]
    where
      the_scan :
          (m : ℤ) (it' : FdIter)
          → get_maxfd target K it p.world ≡ (m, it')
          → FdIter.next_possible target K fuel it p ≡ scan target K fuel m it' p
      the_scan m it' e = ap (λ a. scan target K fuel a.0 a.1 p) e

      searched :
          (m : ℤ)
          → LimitOf it m
          → IfAny (AtEnd it) (scan target K fuel m (record it { maxfd = some m }) p)
      searched m of =
          IfAny-mono (Searched m) (AtEnd it) (scan target K fuel m (record it { maxfd = some m }) p)
            (λ a. Searched-AtEnd it m a of)
            (scan-Searched fuel m (record it { maxfd = some m }) p unread refl)

  module _ (fuel : ℕ) (it : FdIter) where
    pub next_unread :
        (p : Process K)
        → it.dirfd_iter ≡ none
        → FdIter.next target K fuel it p ≡ FdIter.next_possible target K fuel it p
    unfolding FdIter.next
    next_unread p unread = rw unread refl

    -- What `next` makes of the answer of the directory's iterator.
    abbrev pub answer : NextResult K → Action (Process K) (Option ℤ × FdIter)
    answer (r, d) = elim r [
      | ok (some fd) ↦
          pure (some fd, record it { dirfd_iter = some d; curfd = wrap_int (fd +ℤ pos 1) })
      | ok none ↦ pure (none, record it { dirfd_iter = some d })
      | err ↦
          DirFd.drop_iter K d
          >> FdIter.next_possible target K fuel (record it { dirfd_iter = none })
    ]

    pub next_read :
        (d : DirFdIter) (p : Process K)
        → it.dirfd_iter ≡ some d
        → FdIter.next target K fuel it p ≡ (DirFd.next K fuel d >>= answer) p
    unfolding FdIter.next
    next_read d p reads = rw reads refl

    answered : (a : NextResult K) (p : Process K) → Shut K a → IfAny (AtEnd it) (answer a p)
    unfolding DirFd.drop_iter
    answered (ok (some fd), d) p shut = tt
    answered (ok none, d) p shut = inl (d, refl, shut)
    answered (err, d) p shut = elim (Bool-cases (leb_ℤ (pos 0) d.dirfd)) [
      | inl opened ↦ rw opened (next_possible-AtEnd fuel (record it { dirfd_iter = none }) _ refl)
      | inr gone ↦ rw gone (next_possible-AtEnd fuel (record it { dirfd_iter = none }) _ refl)
    ]

    pub next-AtEnd : (p : Process K) → IfAny (AtEnd it) (FdIter.next target K fuel it p)
    next-AtEnd p = elim (Option-cases it.dirfd_iter) [
      | inl unread ↦
          subst (IfAny (AtEnd it)) (sym (next_unread p unread))
            (next_possible-AtEnd fuel it p unread)
      | inr (d, reads) ↦ subst (IfAny (AtEnd it)) (sym (next_read d p reads)) (
          IfReturns-bind (λ a s. Shut K a) (λ a s. AtEnd it a) (DirFd.next K fuel d p) answer
            (next-Shut K fuel d p) (λ a q shut. answered a q shut))
    ]

  -- Once `next` has given no descriptor, it gives none ever after, on every system and whatever happens to
  -- the process in between; it then changes neither the iterator nor the process.
  pub next-fused :
      (fuel : ℕ) (it it' : FdIter) (p q : Process K)
      → FdIter.next target K fuel it p ≡ some ((none, it'), q)
      → (more : ℕ) (u : Process K) → FdIter.next target K (suc more) it' u ≡ some ((none, it'), u)
  next-fused fuel it it' p q e =
      AtEnd-Ended it (none, it') (subst (IfAny (AtEnd it)) e (next-AtEnd fuel it p))
