-- ===== src/IterFds/DirFd/Reading.antt =====
-- The loop of `DirFdIter::next` of src/iterfds/dirfd.rs, over a directory that keeps its promises.
use close_fds.Base.{
  ℕ, suc, ◌+◌, ◌<◌, ◌≡◌, refl, sym, ◌∙◌, ap, ◌⊎◌, inl, inr, true, false, not, ◌&&◌, some, List, ◌∷◌,
  arith, ℤ, pos, ◌≤ℤ◌, ◌<ℤ◌, +ℤ_parts, leb_ℤ, eqb_ℤ, int_max, Action, Returns, Bool-cases,
}
use mathlib.Core.Path.{subst}
use close_fds.Kernel.{Kernel}
use close_fds.Kernel.Laws.{IsTable}
use close_fds.Process.{Process}
use close_fds.IterFds.DirFd.{DirFdIter, NextResult, parse_int_bytes, take_entry}
use close_fds.IterFds.DirFd.Decimal.{parse_int_bytes-decimal, parse_int_bytes-dot}
use close_fds.IterFds.DirFd.Laws.{Free, Entries, IsDirectory}
use close_fds.IterFds.DirFd.Listing.{
  FreeBut, FreeBut-Free, IsListing, Listed, behind, name, take_none, take_other, take_some,
}

module _ (K : Kernel) (T : IsTable K) (entries : ℕ) (D : IsDirectory K entries) where
  -- What is known of the rounds that follow, with fuel for the entries to come.
  abbrev pub Continues : ℕ → (DirFdIter → Action (Process K) (NextResult K)) → Type 0
  Continues fuel continue =
      (before : ℕ) (it : DirFdIter) (curfd : ℤ) (p : Process K) (count : ℕ) (low : ℤ)
      → IsListing K entries D it curfd p.world count low
      → count + D.left it.dirfd p.world < fuel
      → count + D.left it.dirfd p.world < before
      → Returns (continue it p) (λ r q. Listed K entries D before it.dirfd curfd p.world r q.world)

  module _ (fuel : ℕ) (continue : DirFdIter → Action (Process K) (NextResult K))
      (ih : Continues fuel continue) (before : ℕ) (it : DirFdIter) (curfd : ℤ) (p : Process K)
      (count : ℕ) (low : ℤ) (l : IsListing K entries D it curfd p.world (suc count) low)
      (enough : count + D.left it.dirfd p.world < fuel)
      (fewer : count + D.left it.dirfd p.world < before) where
    abbrev TakeListed : Type 0
    TakeListed =
        Returns (take_entry K continue it p)
          (λ r q. Listed K entries D before it.dirfd curfd p.world r q.world)

    abbrev Ahead : ℤ → Type 0
    Ahead low' =
        Entries K it.dirent_buf it.dirent_nbytes (D.cursor it.dirfd p.world) p.world count
          (behind K continue it p).dirent_offset low'

    dot : (rest : List ℕ) → name K continue it p ≡ b'.' ∷ rest → Ahead low → TakeListed
    dot rest e ahead =
        subst (λ o. Returns o (λ r q. Listed K entries D before it.dirfd curfd p.world r q.world))
          (sym (take_none K continue it p (ap parse_int_bytes e ∙ parse_int_bytes-dot rest)))
          (ih before (behind K continue it p) curfd p count low
            (record {
              live = l.live;
              lists = l.lists;
              from_min = l.from_min;
              start = l.start;
              passed = l.passed;
              ahead = ahead;
            })
            enough fewer)

    -- An entry that is filtered out, or that is the directory's own.
    skipped :
        (fd : ℕ)
        → parse_int_bytes (name K continue it p) ≡ some (pos fd)
        → leb_ℤ it.minfd (pos fd) && not (eqb_ℤ (pos fd) it.dirfd) ≡ false
        → low ≤ℤ pos fd
        → Free K low (pos fd) p.world
        → Ahead (pos (suc fd))
        → TakeListed
    skipped fd e out le free ahead =
        subst (λ o. Returns o (λ r q. Listed K entries D before it.dirfd curfd p.world r q.world))
          (sym (take_other K continue it p (pos fd) e out))
          (ih before (behind K continue it p) curfd p count (pos (suc fd))
            (record {
              live = l.live;
              lists = l.lists;
              from_min = l.from_min;
              start = later l.start;
              passed = passed';
              ahead = ahead;
            })
            enough fewer)
      where
        later : (curfd ≤ℤ low) ⊎ (curfd ≤ℤ it.minfd) → (curfd ≤ℤ pos (suc fd)) ⊎ (curfd ≤ℤ it.minfd)
        later (inl h) = inl (omega arith)
        later (inr h) = inr h

        passed' : FreeBut K entries D it.dirfd curfd (pos (suc fd)) p.world
        passed' j from before_next foreign = elim (Bool-cases (leb_ℤ (pos fd) j)) [
          | inr below ↦
              FreeBut-Free K entries D it.dirfd curfd low (pos fd) p.world l.passed free j from
                (ground arith) foreign
          | inl here ↦
              let at : j ≡ pos fd = ground arith in
              let other : eqb_ℤ it.dirfd (pos fd) ≡ false =
                subst (λ i. eqb_ℤ it.dirfd i ≡ false) at foreign in
              let reached : curfd ≤ℤ pos fd = subst (λ i. curfd ≤ℤ i) at from in
              let kept : it.minfd ≤ℤ curfd = l.from_min.1 in absurd (ground arith)
        ]

    given :
        (fd : ℕ)
        → parse_int_bytes (name K continue it p) ≡ some (pos fd)
        → leb_ℤ it.minfd (pos fd) && not (eqb_ℤ (pos fd) it.dirfd) ≡ true
        → low ≤ℤ pos fd
        → pos fd <ℤ int_max
        → Free K low (pos fd) p.world
        → Ahead (pos (suc fd))
        → TakeListed
    given fd e hit le lt free ahead =
        subst (λ o. Returns o (λ r q. Listed K entries D before it.dirfd curfd p.world r q.world))
          (sym (take_some K continue it p (pos fd) e hit))
          (
            refl,
            λ j. refl,
            from l.start,
            lt,
            ground arith,
            FreeBut-Free K entries D it.dirfd curfd low (pos fd) p.world l.passed free,
            (
              count,
              pos (suc fd),
              record {
                live = l.live;
                lists = l.lists;
                from_min = ground (arith, +ℤ_parts (pos fd) (pos 1));
                start = inl (omega (arith, +ℤ_parts (pos fd) (pos 1)));
                passed = λ j above below foreign. absurd (omega (arith, +ℤ_parts (pos fd) (pos 1)));
                ahead = ahead;
              },
              fewer,
              ground arith,
            ),
          )
      where
        from : (curfd ≤ℤ low) ⊎ (curfd ≤ℤ it.minfd) → curfd ≤ℤ pos fd
        from (inl h) = omega arith
        from (inr h) = ground arith

    pub take_entry-Listed : TakeListed
    take_entry-Listed = elim l.ahead.1 [
      | inl (rest, e, ahead) ↦ dot rest e ahead
      | inr (fd, e, le, lt, free, ahead) ↦
          let read : parse_int_bytes (name K continue it p) ≡ some (pos fd) =
            ap parse_int_bytes e ∙ parse_int_bytes-decimal fd (omega (arith, lt)) in
          elim (Bool-cases (leb_ℤ it.minfd (pos fd) && not (eqb_ℤ (pos fd) it.dirfd))) [
            | inl hit ↦ given fd read hit le lt free ahead
            | inr out ↦ skipped fd read out le free ahead
          ]
    ]
