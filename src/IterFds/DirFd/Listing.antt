-- ===== src/IterFds/DirFd/Listing.antt =====
-- What `DirFdIter::next` of src/iterfds/dirfd.rs gives: the specification, and the arms of its loop.
use close_fds.Base.{
  ℕ, zero, suc, ◌+◌, ◌<◌, ◌≡◌, refl, sym, ◌∙◌, ◌⊎◌, inl, inr, true, false, not, ◌&&◌, Option, none,
  some, List, arith, ℤ, pos, negsuc, ◌≤ℤ◌, ◌<ℤ◌, ◌+ℤ◌, leb_ℤ, eqb_ℤ, int_max, drop, Action, Result,
  ok, err, Bool-cases,
}
use mathlib.Core.Path.{subst}
use close_fds.Kernel.{Kernel}
use close_fds.Process.{Process}
use close_fds.IterFds.DirFd.{DirFdIter, parse_int_bytes, NextResult, take_entry}
use close_fds.IterFds.DirFd.Laws.{Free, Entries, entry_name, IsDirectory}

module _ (K : Kernel) (entries : ℕ) (D : IsDirectory K entries) where
  -- No descriptor from `low` up to `high` is open, but for that of the directory.
  abbrev pub FreeBut : ℤ → ℤ → ℤ → K.World → Type 0
  FreeBut d low high w = (j : ℤ) → low ≤ℤ j → j <ℤ high → eqb_ℤ d j ≡ false → K.getfd j w ≡ negsuc 0

  -- The iterator between two calls of `next`: what is open from `curfd` on is still to be listed, by
  -- `count` entries in the buffer, which are for descriptors from `low` on, or behind it.
  pub record IsListing (it : DirFdIter) (curfd : ℤ) (w : K.World) (count : ℕ) (low : ℤ)
      : Type 0 where
    pub live : (pos 0 ≤ℤ it.dirfd) × (it.dirfd ≤ℤ int_max)
    pub lists : D.Lists it.dirfd w
    pub from_min : (pos 0 ≤ℤ curfd) × (it.minfd ≤ℤ curfd)
    pub start : (curfd ≤ℤ low) ⊎ (curfd ≤ℤ it.minfd)
    pub passed : FreeBut it.dirfd curfd low w
    pub ahead :
        Entries K it.dirent_buf it.dirent_nbytes (D.cursor it.dirfd w) w count it.dirent_offset low

  -- What a call of `next` gives, with the entries then to come fewer than a bound.
  abbrev pub Listed : ℕ → ℤ → ℤ → K.World → Result (Option ℤ) × DirFdIter → K.World → Type 0
  Listed before d curfd w (ok (some fd), it') v =
      (it'.dirfd ≡ d)
      × ((j : ℤ) → K.getfd j v ≡ K.getfd j w)
      × (curfd ≤ℤ fd)
      × (fd <ℤ int_max)
      × (eqb_ℤ d fd ≡ false)
      × FreeBut d curfd fd w
      × ((count : ℕ) × (low : ℤ) × IsListing it' (fd +ℤ pos 1) v count low
          × (count + D.left d v < before)
          × (it'.minfd ≤ℤ fd))
  Listed before d curfd w (ok none, it') v =
      (it'.dirfd ≡ negsuc 0)
      × (K.getfd d v ≡ negsuc 0)
      × ((j : ℤ) → eqb_ℤ d j ≡ false → K.getfd j v ≡ K.getfd j w)
      × FreeBut d curfd int_max w
  Listed before d curfd w (err, it') v = (it'.dirfd ≡ d) × ((j : ℤ) → K.getfd j v ≡ K.getfd j w)

  pub Listed-same :
      (before : ℕ) (d curfd : ℤ) (w w' v : K.World) (r : Result (Option ℤ) × DirFdIter)
      → ((j : ℤ) → K.getfd j w' ≡ K.getfd j w)
      → Listed before d curfd w' r v
      → Listed before d curfd w r v
  Listed-same before d curfd w w' v (ok (some fd), it') same (a, b, c, e, f, g, h) =
      (a, λ j. b j ∙ same j, c, e, f, λ j le lt ne. sym (same j) ∙ g j le lt ne, h)
  Listed-same before d curfd w w' v (ok none, it') same (a, b, c, e) =
      (a, b, λ j ne. c j ne ∙ same j, λ j le lt ne. sym (same j) ∙ e j le lt ne)
  Listed-same before d curfd w w' v (err, it') same (a, b) = (a, λ j. b j ∙ same j)

  pub FreeBut-Free :
      (d curfd low high : ℤ) (w : K.World)
      → FreeBut d curfd low w
      → Free K low high w
      → FreeBut d curfd high w
  FreeBut-Free d curfd low high w f g j le lt ne = elim (Bool-cases (leb_ℤ low j)) [
    | inl above ↦ g j (ground arith) lt
    | inr below ↦ f j le (ground arith) ne
  ]

-- The arms of the loop, for the entry at the offset.
module _ (K : Kernel) (continue : DirFdIter → Action (Process K) (NextResult K)) (it : DirFdIter)
    (p : Process K) where
  abbrev pub behind : DirFdIter
  behind = record it {
    dirent_offset = it.dirent_offset + K.d_reclen (drop it.dirent_offset it.dirent_buf);
  }

  abbrev pub name : List ℕ
  name = entry_name K (drop it.dirent_offset it.dirent_buf)

  pub take_none : parse_int_bytes name ≡ none → take_entry K continue it p ≡ continue behind p
  unfolding take_entry
  take_none e = rw (take_entry, e) refl

  pub take_other :
      (fd : ℤ)
      → parse_int_bytes name ≡ some fd
      → leb_ℤ it.minfd fd && not (eqb_ℤ fd it.dirfd) ≡ false
      → take_entry K continue it p ≡ continue behind p
  unfolding take_entry
  take_other fd e out = rw (take_entry, e, out) refl

  pub take_some :
      (fd : ℤ)
      → parse_int_bytes name ≡ some fd
      → leb_ℤ it.minfd fd && not (eqb_ℤ fd it.dirfd) ≡ true
      → take_entry K continue it p ≡ some ((ok (some fd), behind), p)
  unfolding take_entry
  take_some fd e within = rw (take_entry, e, within) refl

-- What the laws of a directory keep while other descriptors are closed or marked.
module _ (K : Kernel) where
  Entries-kept :
      (buf : List ℕ) (nbytes : ℕ) (high high' : ℤ) (w v : K.World) (count offset : ℕ) (low : ℤ)
      → ((j : ℤ) → K.getfd j w ≡ negsuc 0 → K.getfd j v ≡ negsuc 0)
      → high' ≡ high
      → Entries K buf nbytes high w count offset low
      → Entries K buf nbytes high' v count offset low
  Entries-kept buf nbytes high high' w v zero offset low kept same (le, lt, free) =
      subst (λ h. Entries K buf nbytes h v zero offset low) (sym same)
        (le, lt, λ j from below. kept j (free j from below))
  Entries-kept buf nbytes high high' w v (suc count) offset low kept same
        (lt, inl (rest, e, more)) =
      (
        lt,
        inl (
          rest,
          e,
          Entries-kept buf nbytes high high' w v count (offset + K.d_reclen (drop offset buf)) low
              kept same more,
        ),
      )
  Entries-kept buf nbytes high high' w v (suc count) offset low kept same
        (lt, inr (fd, e, le, small, free, more)) =
      (
        lt,
        inr (
          fd,
          e,
          le,
          small,
          λ j from below. kept j (free j from below),
          Entries-kept buf nbytes high high' w v count (offset + K.d_reclen (drop offset buf))
              (pos (suc fd)) kept same more,
        ),
      )

  pub IsListing-kept :
      (entries : ℕ) (D : IsDirectory K entries) (it : DirFdIter) (curfd : ℤ) (w v : K.World)
      (count : ℕ) (low : ℤ)
      → ((j : ℤ) → K.getfd j w ≡ negsuc 0 → K.getfd j v ≡ negsuc 0)
      → D.Lists it.dirfd v
      → D.cursor it.dirfd v ≡ D.cursor it.dirfd w
      → IsListing K entries D it curfd w count low
      → IsListing K entries D it curfd v count low
  IsListing-kept entries D it curfd w v count low kept lists same l = record {
    live = l.live;
    lists = lists;
    from_min = l.from_min;
    start = l.start;
    passed = λ j from below foreign. kept j (l.passed j from below foreign);
    ahead =
        Entries-kept it.dirent_buf it.dirent_nbytes (D.cursor it.dirfd w) (D.cursor it.dirfd v) w v
          count it.dirent_offset low kept same l.ahead;
  }
