-- ===== src/IterFds/DirFd/Refill.antt =====
-- The whole loop of `DirFdIter::next` of src/iterfds/dirfd.rs, with the calls of `getdents`.
use close_fds.Base.{
  ℕ, zero, suc, ◌+◌, ◌≤◌, ◌<◌, ◌≡◌, refl, sym, ◌∙◌, ◌⊎◌, inl, inr, true, false, Option, none, some,
  List, leb, arith, ℤ, pos, negsuc, ◌≤ℤ◌, int_max, Action, ok, err, Returns, Returns-mono,
}
use mathlib.Core.Path.{subst}
use close_fds.Kernel.{Kernel}
use close_fds.Kernel.Laws.{IsTable}
use close_fds.Process.{Process}
use close_fds.IterFds.DirFd.{DirFdIter, NextResult, take_entry, refill, next_loop}
use close_fds.IterFds.DirFd.Laws.{Free, Entries, IsDirectory}
use close_fds.IterFds.DirFd.Listing.{FreeBut, FreeBut-Free, IsListing, Listed, Listed-same}
use close_fds.IterFds.DirFd.Reading.{Continues, take_entry-Listed}

pub ℤ-sign : (n : ℤ) → (n ≡ pos 0) ⊎ (((m : ℕ) × (n ≡ pos (suc m))) ⊎ ((m : ℕ) × (n ≡ negsuc m)))
ℤ-sign (pos zero) = inl refl
ℤ-sign (pos (suc m)) = inr (inl (m, refl))
ℤ-sign (negsuc m) = inr (inr (m, refl))

-- The three outcomes of `getdents`.
module _ (K : Kernel) (continue : DirFdIter → Action (Process K) (NextResult K)) (it : DirFdIter)
    (p : Process K) where
  abbrev pub called : ℤ × List ℕ × K.World
  called = K.getdents it.dirfd it.dirent_buf p.world

  pub refill_end :
      called.0 ≡ pos 0
      → refill K continue it p
        ≡ some (
          (ok none, record it { dirfd = negsuc 0; dirent_buf = called.1 }),
          record p { world = K.close it.dirfd called.2 },
        )
  unfolding refill
  refill_end e = rw e refl

  pub refill_more :
      (n : ℕ)
      → called.0 ≡ pos (suc n)
      → refill K continue it p
        ≡ continue
            (record it { dirent_buf = called.1; dirent_nbytes = suc n; dirent_offset = 0 })
            (record p { world = called.2 })
  unfolding refill
  refill_more n e = rw e refl

  pub refill_failed :
      (n : ℕ)
      → called.0 ≡ negsuc n
      → refill K continue it p
        ≡ some ((err, record it { dirent_buf = called.1 }), record p { world = called.2 })
  unfolding refill
  refill_failed n e = rw e refl

module _ (K : Kernel) (T : IsTable K) (entries : ℕ) (D : IsDirectory K entries) where
  abbrev pub NextListed : ℕ → DirFdIter → ℤ → Process K → Option (NextResult K × Process K) → Type 0
  NextListed before it curfd p o =
      Returns o (λ r q. Listed K entries D before it.dirfd curfd p.world r q.world)

  -- The buffer is used up.
  refill-Listed :
      (fuel : ℕ) (continue : DirFdIter → Action (Process K) (NextResult K))
      → Continues K T entries D fuel continue
      → (before : ℕ) (it : DirFdIter) (curfd : ℤ) (p : Process K) (low : ℤ)
      → IsListing K entries D it curfd p.world 0 low
      → D.left it.dirfd p.world < suc fuel
      → D.left it.dirfd p.world < suc before
      → NextListed before it curfd p (refill K (take_entry K continue) it p)
  refill-Listed fuel continue ih before it curfd p low l enough fewer = elim (ℤ-sign now.0) [
    | inl over ↦
        subst (NextListed before it curfd p) (sym (refill_end K (take_entry K continue) it p over))
          (
            refl,
            ground (arith, T.getfd-close it.dirfd it.dirfd now.2),
            λ j foreign. ground (arith, T.getfd-close it.dirfd j now.2, laws.0 j),
            FreeBut-Free K entries D it.dirfd curfd (D.cursor it.dirfd p.world) int_max p.world
                to_cursor (laws.1 over),
          )
    | inr (inl (n, more)) ↦
        subst (NextListed before it curfd p)
          (sym (refill_more K (take_entry K continue) it p n more)) (read n more)
    | inr (inr (n, failed)) ↦
        subst (NextListed before it curfd p)
          (sym (refill_failed K (take_entry K continue) it p n failed)) (refl, laws.0)
  ]
    where
      now : ℤ × List ℕ × K.World
      now = K.getdents it.dirfd it.dirent_buf p.world

      laws :
          ((j : ℤ) → K.getfd j now.2 ≡ K.getfd j p.world)
          × (now.0 ≡ pos 0 → Free K (D.cursor it.dirfd p.world) int_max p.world)
          × ((n : ℕ)
              → now.0 ≡ pos (suc n)
              → D.Lists it.dirfd now.2
                × ((count : ℕ) × (suc count + D.left it.dirfd now.2 ≤ D.left it.dirfd p.world)
                    × Entries K now.1
                        (suc n)
                        (D.cursor it.dirfd now.2)
                        now.2
                        (suc count)
                        0
                        (D.cursor it.dirfd p.world)))
      laws = D.read_lem it.dirfd it.dirent_buf p.world l.lists

      to_cursor : FreeBut K entries D it.dirfd curfd (D.cursor it.dirfd p.world) p.world
      to_cursor =
          FreeBut-Free K entries D it.dirfd curfd low (D.cursor it.dirfd p.world) p.world l.passed
            l.ahead.2

      later :
          (curfd ≤ℤ low) ⊎ (curfd ≤ℤ it.minfd)
          → (curfd ≤ℤ D.cursor it.dirfd p.world) ⊎ (curfd ≤ℤ it.minfd)
      later (inl h) = inl (omega (arith, l.ahead.1))
      later (inr h) = inr h

      read :
          (n : ℕ)
          → now.0 ≡ pos (suc n)
          → NextListed before it curfd p (
              take_entry K continue
                (record it { dirent_buf = now.1; dirent_nbytes = suc n; dirent_offset = 0 })
                (record p { world = now.2 }))
      read n more =
          let (lists, (count, shrinks, ahead)) = laws.2 n more in
          let it' : DirFdIter = record it {
            dirent_buf = now.1;
            dirent_nbytes = suc n;
            dirent_offset = 0;
          } in
          let q : Process K = record p { world = now.2 } in
          Returns-mono _ _ (take_entry K continue it' q)
            (take_entry-Listed K T entries D fuel continue ih before it' curfd q count
              (D.cursor it.dirfd p.world)
              (record {
                live = l.live;
                lists = lists;
                from_min = l.from_min;
                start = later l.start;
                passed = λ j from below foreign. laws.0 j ∙ to_cursor j from below foreign;
                ahead = ahead;
              })
              (omega arith) (omega arith))
            (λ r u h.
              Listed-same K entries D before it.dirfd curfd p.world now.2 u.world r laws.0 h)

  pub next_loop-Listed :
      (fuel before : ℕ) (it : DirFdIter) (curfd : ℤ) (p : Process K) (count : ℕ) (low : ℤ)
      → IsListing K entries D it curfd p.world count low
      → count + D.left it.dirfd p.world < fuel
      → count + D.left it.dirfd p.world ≤ before
      → NextListed before it curfd p (next_loop K fuel it p)
  unfolding next_loop
  next_loop-Listed zero before it curfd p count low l enough fewer = absurd (omega arith)
  next_loop-Listed (suc fuel) before it curfd p zero low l enough fewer =
      let full : leb it.dirent_nbytes it.dirent_offset ≡ true = ground (arith, l.ahead.0) in
      rw full (
        refill-Listed fuel (next_loop K fuel)
          (λ b i c q n lo m e f. next_loop-Listed fuel b i c q n lo m e (omega arith)) before it
          curfd p low l (omega arith) (omega arith))
  next_loop-Listed (suc fuel) before it curfd p (suc count) low l enough fewer =
      let rest : leb it.dirent_nbytes it.dirent_offset ≡ false = ground (arith, l.ahead.0) in
      rw rest (
        take_entry-Listed K T entries D fuel (next_loop K fuel)
          (λ b i c q n lo m e f. next_loop-Listed fuel b i c q n lo m e (omega arith)) before it
          curfd p count low l (omega arith) (omega arith))
