-- ===== src/IterFds/DirFd/Hint.antt =====
-- `DirFdIter::size_hint` of src/iterfds/dirfd.rs, against what `next` then gives.
use close_fds.Base.{
  ℕ, zero, suc, ◌+◌, ◌≤◌, ◌<◌, ◌≡◌, refl, sym, ◌∙◌, ap, ◌⊎◌, inl, inr, true, false, not, ◌&&◌,
  Option, none, some, leb, ltb, arith, ℤ, pos, ◌≤ℤ◌, ◌<ℤ◌, leb_ℤ, ltb_ℤ, eqb_ℤ, int_max, pos_part,
  ok, drop, Bool-cases,
}
use close_fds.Kernel.{Kernel}
use close_fds.Process.{Process}
use close_fds.IterFds.DirFd
use close_fds.IterFds.DirFd.{
  DirFdIter, parse_int_bytes, get_entry_info, take_entry, next_loop, count_entries,
}
use close_fds.IterFds.DirFd.Decimal.{parse_int_bytes-decimal, parse_int_bytes-dot}
use close_fds.IterFds.DirFd.Laws.{Entries, entry_name, IsDirectory}
use close_fds.IterFds.DirFd.Listing.{IsListing, take_none, take_other, take_some}
use close_fds.IterFds.DirFd.Gives.{Gives, Gives-mono, Gives-skip}

module _ (K : Kernel) where
  module _ (it : DirFdIter) (p : Process K) (live : pos 0 ≤ℤ it.dirfd) where
    abbrev at : ℕ → DirFdIter
    at offset = record it { dirent_offset = offset }

    abbrev after : ℕ → ℕ
    after offset = offset + K.d_reclen (drop offset it.dirent_buf)

    abbrev named : ℕ → Option ℤ
    named offset = parse_int_bytes (entry_name K (drop offset it.dirent_buf))

    next-take_entry :
        (fuel offset : ℕ)
        → offset < it.dirent_nbytes
        → DirFd.next K (suc fuel) (at offset) p ≡ take_entry K (next_loop K fuel) (at offset) p
    unfolding DirFd.next next_loop
    next-take_entry fuel offset more =
        let opened : ltb_ℤ it.dirfd (pos 0) ≡ false = ground arith in
        let left : leb it.dirent_nbytes offset ≡ false = ground arith in rw (opened, left) refl

    next-next_loop :
        (fuel offset : ℕ) → DirFd.next K fuel (at offset) p ≡ next_loop K fuel (at offset) p
    unfolding DirFd.next
    next-next_loop fuel offset =
        let opened : ltb_ℤ it.dirfd (pos 0) ≡ false = ground arith in rw opened refl

    -- The rounds of `size_hint`.
    count_end :
        (fuel offset acc : ℕ)
        → it.dirent_nbytes ≤ offset
        → count_entries K (suc fuel) it offset acc ≡ some acc
    unfolding count_entries
    count_end fuel offset acc used =
        let over : ltb offset it.dirent_nbytes ≡ false = ground arith in rw over refl

    count_none :
        (fuel offset acc : ℕ)
        → offset < it.dirent_nbytes
        → named offset ≡ none
        → count_entries K (suc fuel) it offset acc ≡ count_entries K fuel it (after offset) acc
    unfolding count_entries get_entry_info
    count_none fuel offset acc more e =
        let left : ltb offset it.dirent_nbytes ≡ true = ground arith in rw (left, e) refl

    count_own :
        (fuel offset acc : ℕ) (fd : ℤ)
        → offset < it.dirent_nbytes
        → named offset ≡ some fd
        → eqb_ℤ fd it.dirfd ≡ true
        → count_entries K (suc fuel) it offset acc ≡ count_entries K fuel it (after offset) acc
    unfolding count_entries get_entry_info
    count_own fuel offset acc fd more e own =
        let left : ltb offset it.dirent_nbytes ≡ true = ground arith in rw (left, e, own) refl

    count_one :
        (fuel offset acc : ℕ) (fd : ℤ)
        → offset < it.dirent_nbytes
        → named offset ≡ some fd
        → eqb_ℤ fd it.dirfd ≡ false
        → count_entries K (suc fuel) it offset acc
          ≡ count_entries K fuel it (after offset) (acc + 1)
    unfolding count_entries get_entry_info
    count_one fuel offset acc fd more e other =
        let left : ltb offset it.dirent_nbytes ≡ true = ground arith in rw (left, e, other) refl

    -- The number that `size_hint` finds from an offset on, and what `next` gives from there.
    abbrev Counted : ℕ → ℕ → ℕ → ℕ → Type 0
    Counted fuel count offset acc =
        (n : ℕ) × (count_entries K fuel it offset acc ≡ some (acc + n))
        × Gives K count n (at offset) p

    skipped :
        (fuel count offset acc : ℕ)
        → count_entries K (suc fuel) it offset acc ≡ count_entries K fuel it (after offset) acc
        → ((rounds : ℕ)
            → take_entry K (next_loop K rounds) (at offset) p
              ≡ next_loop K rounds (at (after offset)) p)
        → offset < it.dirent_nbytes
        → Counted fuel count (after offset) acc
        → Counted (suc fuel) (suc count) offset acc
    skipped fuel count offset acc same pass more (n, counted, gives) = (
      n,
      same ∙ counted,
      Gives-skip K count n (at offset) (at (after offset)) p
          (λ rounds.
            next-take_entry rounds offset more
            ∙ pass rounds
            ∙ sym (next-next_loop rounds (after offset)))
          gives,
    )

    given :
        (fuel count offset acc : ℕ) (fd : ℤ)
        → count_entries K (suc fuel) it offset acc
          ≡ count_entries K fuel it (after offset) (acc + 1)
        → ((rounds : ℕ)
            → take_entry K (next_loop K rounds) (at offset) p
              ≡ some ((ok (some fd), at (after offset)), p))
        → offset < it.dirent_nbytes
        → Counted fuel count (after offset) (acc + 1)
        → Counted (suc fuel) (suc count) offset acc
    given fuel count offset acc fd same take more (n, counted, gives) = (
      suc n,
      same ∙ counted ∙ ap some (omega arith),
      (
        fd,
        at (after offset),
        first,
        Gives-mono K count (suc count) n (at (after offset)) p (omega arith) gives,
      ),
    )
      where
        first :
            (rounds : ℕ)
            → suc count < rounds
            → DirFd.next K rounds (at offset) p ≡ some ((ok (some fd), at (after offset)), p)
        first zero lt = absurd (omega arith)
        first (suc rounds) lt = next-take_entry rounds offset more ∙ take rounds

    counted :
        (high : ℤ) (w : K.World) (fuel count offset acc : ℕ) (low : ℤ)
        → Entries K it.dirent_buf it.dirent_nbytes high w count offset low
        → it.minfd ≤ℤ low
        → count < fuel
        → Counted fuel count offset acc
    counted high w zero count offset acc low ahead from lt = absurd (omega arith)
    counted high w (suc fuel) zero offset acc low (used, le, free) from lt =
        (0, count_end fuel offset acc used ∙ ap some (omega arith), tt)
    counted high w (suc fuel) (suc count) offset acc low (more, inl (rest, e, ahead)) from lt =
        let unnamed : named offset ≡ none = ap parse_int_bytes e ∙ parse_int_bytes-dot rest in
        skipped fuel count offset acc (count_none fuel offset acc more unnamed)
          (λ rounds. take_none K (next_loop K rounds) (at offset) p unnamed) more
          (counted high w fuel count (after offset) acc low ahead from (omega arith))
    counted high w (suc fuel) (suc count) offset acc low (more, inr (fd, e, le, small, free, ahead))
          from lt =
        let read : named offset ≡ some (pos fd) =
          ap parse_int_bytes e ∙ parse_int_bytes-decimal fd (omega (arith, small)) in
        elim (Bool-cases (eqb_ℤ (pos fd) it.dirfd)) [
          | inl own ↦
              let out : leb_ℤ it.minfd (pos fd) && not (eqb_ℤ (pos fd) it.dirfd) ≡ false =
                ground arith in
              skipped fuel count offset acc (count_own fuel offset acc (pos fd) more read own)
                (λ rounds. take_other K (next_loop K rounds) (at offset) p (pos fd) read out) more
                (counted high w fuel count (after offset) acc (pos (suc fd)) ahead (omega arith)
                  (omega arith))
          | inr other ↦
              let hit : leb_ℤ it.minfd (pos fd) && not (eqb_ℤ (pos fd) it.dirfd) ≡ true =
                ground arith in
              given fuel count offset acc (pos fd)
                (count_one fuel offset acc (pos fd) more read other)
                (λ rounds. take_some K (next_loop K rounds) (at offset) p (pos fd) read hit) more
                (counted high w fuel count (after offset) (acc + 1) (pos (suc fd)) ahead
                  (omega arith) (omega arith))
        ]

  -- From where the iterator stands.
  hinted :
      (it : DirFdIter) (p : Process K) (live : pos 0 ≤ℤ it.dirfd) (fuel count : ℕ)
      → Counted it p live fuel count it.dirent_offset 0
      → (n : ℕ) × (DirFd.size_hint K fuel it ≡ some (n, pos_part int_max)) × Gives K count n it p
  unfolding DirFd.size_hint
  hinted it p live fuel count (n, found, gives) =
      let opened : ltb_ℤ it.dirfd (pos 0) ≡ false = ground arith in
      let same : 0 + n ≡ n = omega arith in
      (n, rw (opened, found) (ap (λ k. some (k, pos_part int_max)) same), gives)

  -- The entries in the buffer are for descriptors that are not below `minfd`.
  from_minfd :
      (entries : ℕ) (D : IsDirectory K entries) (it : DirFdIter) (curfd : ℤ) (w : K.World)
      (count : ℕ) (low : ℤ)
      → IsListing K entries D it curfd w count low
      → it.minfd <ℤ curfd
      → it.minfd ≤ℤ low
  from_minfd entries D it curfd w count low l began = elim l.start [
    | inl ahead ↦ omega arith
    | inr none_given ↦ absurd (omega arith)
  ]

  -- For an iterator between two calls of `next`, over a directory that keeps its promises, that has given
  -- a descriptor, or has nothing in its buffer, with fuel for more rounds than the entries in the
  -- buffer, `size_hint` gives two bounds, the upper one the largest `c_int`. So many calls of `next`
  -- as the lower one says then give a descriptor each, and none of them calls the kernel.
  pub size_hint-Gives :
      (entries : ℕ) (D : IsDirectory K entries) (it : DirFdIter) (curfd : ℤ) (p : Process K)
      (count fuel : ℕ) (low : ℤ)
      → IsListing K entries D it curfd p.world count low
      → (it.minfd <ℤ curfd) ⊎ (count ≡ 0)
      → count < fuel
      → (n : ℕ) × (DirFd.size_hint K fuel it ≡ some (n, pos_part int_max)) × Gives K count n it p
  size_hint-Gives entries D it curfd p count fuel low l (inl began) enough =
      hinted it p l.live.0 fuel count (
        counted it p l.live.0 (D.cursor it.dirfd p.world) p.world fuel count it.dirent_offset 0 low
          l.ahead (from_minfd entries D it curfd p.world count low l began) enough)
  size_hint-Gives entries D it curfd p zero zero low l (inr empty) enough = absurd (omega arith)
  size_hint-Gives entries D it curfd p zero (suc fuel) low l (inr empty) enough =
      hinted it p l.live.0 (suc fuel) 0
        (0, count_end it p l.live.0 fuel it.dirent_offset 0 l.ahead.0, tt)
  size_hint-Gives entries D it curfd p (suc count) fuel low l (inr empty) enough =
      absurd (omega arith)
