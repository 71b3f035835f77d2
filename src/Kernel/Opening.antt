-- ===== src/Kernel/Opening.antt =====
-- `libc::open("/", O_RDONLY)`, which the crate's own tests call: what the theorems on them assume of it.
use Prim.Native.Nat.{bit_and}
use close_fds.Base.{ℕ, suc, ◌≡◌, false, ℤ, pos, negsuc, pos_part, ◌≤ℤ◌, eqb_ℤ, IsInt}
use close_fds.Kernel.{Kernel}

module _ (K : Kernel) where
  -- No call between two states of the kernel has changed a descriptor.
  abbrev pub SameTable : K.World → K.World → Type 0
  SameTable w v = (j : ℤ) → IsInt j → K.getfd j v ≡ K.getfd j w

  -- The descriptor was closed, is open now and not marked close-on-exec; no other has changed.
  abbrev pub IsOpened : K.World → ℤ × K.World → Type 0
  IsOpened w (fd, v) =
      (pos 0 ≤ℤ fd)
      × (K.getfd fd w ≡ negsuc 0)
      × (pos 0 ≤ℤ K.getfd fd v)
      × (bit_and (pos_part (K.getfd fd v)) 1 ≡ 0)
      × ((j : ℤ) → eqb_ℤ fd j ≡ false → K.getfd j v ≡ K.getfd j w)

  -- `Room n` says that `n` files more can be opened, which only the table decides.
  pub record IsOpening (open_root : K.World → ℤ × K.World) : Type 1 where
    pub Room : ℕ → K.World → Type 0
    pub room_lem : (n : ℕ) (w v : K.World) → SameTable w v → Room n w → Room n v
    pub open_lem :
        (n : ℕ) (w : K.World) → Room (suc n) w → IsOpened w (open_root w) × Room n (open_root w).1
