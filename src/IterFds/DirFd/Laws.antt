-- ===== src/IterFds/DirFd/Laws.antt =====
-- What the theorems assume of the directories that list the descriptors of the process: the entries come
-- in ascending order, each has a decimal name or one that begins with a dot, and no open descriptor is
-- passed over. What is closed or marked meanwhile does not disturb the reading.
use Prim.Native.String.{String}
use close_fds.Base.{
  some, ℕ, zero, suc, ◌+◌, ◌≤◌, ◌<◌, ◌≡◌, ◌≢◌, ◌⊎◌, Bool, false, List, ◌∷◌, ℤ, pos, negsuc, ◌≤ℤ◌,
  ◌<ℤ◌, eqb_ℤ, int_max, drop,
}
use close_fds.Target.{Target, freebsd, linux, macos, ios, netbsd, solaris, illumos}
use close_fds.Kernel.{Kernel}
use close_fds.Sys.{c_string}
use close_fds.IterFds.DirFd.Decimal.{decimal}

module _ (K : Kernel) where
  -- No descriptor between two bounds is open.
  abbrev pub Free : ℤ → ℤ → K.World → Type 0
  Free low high w = (j : ℤ) → low ≤ℤ j → j <ℤ high → K.getfd j w ≡ negsuc 0

  -- The name of the entry at the start of some bytes.
  abbrev pub entry_name : List ℕ → List ℕ
  entry_name bytes = c_string (K.d_name bytes)

  -- A number of entries from an offset on, in a buffer of which `nbytes` are filled: they name
  -- descriptors from `low` on, and none that is open is passed over up to `high`.
  abbrev pub Entries : List ℕ → ℕ → ℤ → K.World → ℕ → ℕ → ℤ → Type 0
  Entries buf nbytes high w zero offset low = (nbytes ≤ offset) × (low ≤ℤ high) × Free low high w
  Entries buf nbytes high w (suc count) offset low =
      (offset < nbytes)
      × (((rest : List ℕ) × (entry_name (drop offset buf) ≡ b'.' ∷ rest)
            × Entries buf nbytes high w count (offset + K.d_reclen (drop offset buf)) low)
          ⊎ ((fd : ℕ) × (entry_name (drop offset buf) ≡ decimal fd)
              × (low ≤ℤ pos fd)
              × (pos fd <ℤ int_max)
              × Free low (pos fd) w
              × Entries buf nbytes high w count (offset + K.d_reclen (drop offset buf))
                  (pos (suc fd))))

  pub record IsDirectory (entries : ℕ) : Type 1 where
    -- a descriptor is that of a directory of descriptors; the number from which on it is still to be
    -- listed, and a bound on the entries to come
    pub Lists : ℤ → K.World → Type 0
    pub cursor : ℤ → K.World → ℤ
    pub left : ℤ → K.World → ℕ
    pub read_lem :
        (d : ℤ) (buf : List ℕ) (w : K.World)
        → Lists d w
        → let (nbytes, buf', w') = K.getdents d buf w in
          ((j : ℤ) → K.getfd j w' ≡ K.getfd j w)
          × (nbytes ≡ pos 0 → Free (cursor d w) int_max w)
          × ((n : ℕ)
              → nbytes ≡ pos (suc n)
              → Lists d w'
                × ((count : ℕ) × (suc count + left d w' ≤ left d w)
                    × Entries buf' (suc n) (cursor d w') w' (suc count) 0 (cursor d w)))
    pub close_lem :
        (d fd : ℤ) (w : K.World)
        → Lists d w
        → eqb_ℤ d fd ≡ false
        → Lists d (K.close fd w)
          × (cursor d (K.close fd w) ≡ cursor d w)
          × (left d (K.close fd w) ≡ left d w)
    pub setfd_lem :
        (d fd flags : ℤ) (w : K.World)
        → Lists d w
        → Lists d (K.setfd fd flags w)
          × (cursor d (K.setfd fd flags w) ≡ cursor d w)
          × (left d (K.setfd fd flags w) ≡ left d w)
    pub refused_lem :
        (d : ℤ) (first last flags : ℕ) (w : K.World)
        → Lists d w
        → (K.close_range first last flags w).0 ≢ pos 0
        → let w' = (K.close_range first last flags w).1 in
          Lists d w' × (cursor d w' ≡ cursor d w) × (left d w' ≡ left d w)

  -- The paths of such directories, and what it is to open one.
  abbrev pub IsFdPath : Target → String → Type 0
  IsFdPath linux path = path ≡ "/proc/self/fd"
  IsFdPath netbsd path = path ≡ "/proc/self/fd"
  IsFdPath freebsd path = path ≡ "/dev/fd"
  IsFdPath macos path = path ≡ "/dev/fd"
  IsFdPath ios path = path ≡ "/dev/fd"
  IsFdPath solaris path = (path ≡ "/dev/fd") ⊎ (path ≡ "/proc/self/fd")
  IsFdPath illumos path = (path ≡ "/dev/fd") ⊎ (path ≡ "/proc/self/fd")
  IsFdPath _ path = ⊥

  -- A descriptor that a call gave: negative, and nothing was changed, or that of a directory, which was
  -- free.
  abbrev pub Opening : (entries : ℕ) → IsDirectory entries → K.World → ℤ → K.World → Type 0
  Opening entries D w d v =
      ((d <ℤ pos 0) × ((j : ℤ) → K.getfd j v ≡ K.getfd j w))
      ⊎ ((pos 0 ≤ℤ d)
          × (d ≤ℤ int_max)
          × (K.getfd d w ≡ negsuc 0)
          × ((j : ℤ) → eqb_ℤ d j ≡ false → K.getfd j v ≡ K.getfd j w)
          × D.Lists d v
          × (D.cursor d v ≤ℤ pos 0)
          × (D.left d v ≤ entries))

  -- Such a path can name another directory only on FreeBSD, and then one on the device of `/dev`.
  abbrev pub Static : Target → ℤ → K.World → Type 0
  Static freebsd d v = (dev : ℕ) × (K.stat_dev "/dev" v ≡ some dev) × (K.fstat_dev d v ≡ some dev)
  Static _ d v = ⊥

  abbrev pub Opens : Target → (entries : ℕ) → IsDirectory entries → Type 0
  Opens target entries D =
      (path : String) (directory : Bool) (w : K.World)
      → IsFdPath target path
      → let (d, v) = K.open_path path directory w in
        Opening entries D w d v
        ⊎ (Static target d v
            × (pos 0 ≤ℤ d)
            × (K.getfd d w ≡ negsuc 0)
            × ((j : ℤ) → eqb_ℤ d j ≡ false → K.getfd j v ≡ K.getfd j w))
