-- ===== src/Kernel/Laws.antt =====
-- What the theorems assume of a kernel: the documented behaviour of the calls on descriptors.
use close_fds.Base.{ℕ, ◌<◌, ◌≡◌, ◌≢◌, Bool, ◌&&◌, if◌then◌else◌, ℤ, pos, negsuc, leb_ℤ, eqb_ℤ, ◌<ℤ◌}
use close_fds.Kernel.{Kernel}

-- A descriptor lies in a range of `close_range`.
abbrev pub in_range : ℕ → ℕ → ℤ → Bool
in_range first last fd = leb_ℤ (pos first) fd && leb_ℤ fd (pos last)

-- `close`, `closefrom` and `close_range` free descriptors, `F_GETFD` is -1 on those that are free, `F_SETFD`
-- opens none, and `close_range` changes nothing if it fails, as it does on an inverted range.
pub record IsTable (K : Kernel) : Type 0 where
  pub getfd-neg : (fd : ℤ) (w : K.World) → fd <ℤ pos 0 → K.getfd fd w ≡ negsuc 0
  pub getfd_failed : (fd : ℤ) (w : K.World) → K.getfd fd w <ℤ pos 0 → K.getfd fd w ≡ negsuc 0
  pub getfd-close :
      (i j : ℤ) (w : K.World)
      → K.getfd j (K.close i w) ≡ (if eqb_ℤ i j then negsuc 0 else K.getfd j w)
  pub getfd-closefrom :
      (i j : ℤ) (w : K.World)
      → K.getfd j (K.closefrom i w) ≡ (if leb_ℤ i j then negsuc 0 else K.getfd j w)
  pub getfd-close_range :
      (first last : ℕ) (j : ℤ) (w : K.World)
      → (K.close_range first last 0 w).0 ≡ pos 0
      → K.getfd j (K.close_range first last 0 w).1
        ≡ (if in_range first last j then negsuc 0 else K.getfd j w)
  pub setfd_absent :
      (fd flags j : ℤ) (w : K.World)
      → K.getfd j w ≡ negsuc 0
      → K.getfd j (K.setfd fd flags w) ≡ negsuc 0
  pub close_range_failed :
      (first last flags : ℕ) (j : ℤ) (w : K.World)
      → (K.close_range first last flags w).0 ≢ pos 0
      → K.getfd j (K.close_range first last flags w).1 ≡ K.getfd j w
  pub close_range_inverted :
      (first last flags : ℕ) (w : K.World)
      → last < first
      → (K.close_range first last flags w).0 ≢ pos 0
