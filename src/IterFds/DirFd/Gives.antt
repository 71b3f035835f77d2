-- ===== src/IterFds/DirFd/Gives.antt =====
-- Calls of `DirFdIter::next` (src/iterfds/dirfd.rs) that take what is in the buffer.
use close_fds.Base.{ℕ, zero, suc, ◌≤◌, ◌<◌, ◌≡◌, ◌∙◌, some, arith, ℤ, ok}
use close_fds.Kernel.{Kernel}
use close_fds.Process.{Process}
use close_fds.IterFds.DirFd
use close_fds.IterFds.DirFd.{
  DirFdIter, parse_int_bytes, get_entry_info, take_entry, next_loop, count_entries,
}

module _ (K : Kernel) where
  -- So many calls of `next` give a descriptor each, and none of them calls the kernel, with fuel for
  -- more rounds than the entries in the buffer.
  abbrev pub Gives : ℕ → ℕ → DirFdIter → Process K → Type 0
  Gives bound zero it p = Unit
  Gives bound (suc n) it p =
      (fd : ℤ) × (it' : DirFdIter) × ((fuel : ℕ)
        → bound < fuel
        → DirFd.next K fuel it p ≡ some ((ok (some fd), it'), p))
      × Gives bound n it' p

  pub Gives-mono :
      (bound more n : ℕ) (it : DirFdIter) (p : Process K)
      → bound ≤ more
      → Gives bound n it p
      → Gives more n it p
  Gives-mono bound more zero it p le h = tt
  Gives-mono bound more (suc n) it p le (fd, it', given, rest) =
      (fd, it', λ fuel lt. given fuel (omega arith), Gives-mono bound more n it' p le rest)

  -- A first round of `next` that gives nothing.
  pub Gives-skip :
      (bound n : ℕ) (it it' : DirFdIter) (p : Process K)
      → ((fuel : ℕ) → DirFd.next K (suc fuel) it p ≡ DirFd.next K fuel it' p)
      → Gives bound n it' p
      → Gives (suc bound) n it p
  Gives-skip bound zero it it' p skip h = tt
  Gives-skip bound (suc n) it it' p skip (fd, after, given, rest) =
      (fd, after, first, Gives-mono bound (suc bound) n after p (omega arith) rest)
    where
      first :
          (fuel : ℕ) → suc bound < fuel → DirFd.next K fuel it p ≡ some ((ok (some fd), after), p)
      first zero lt = absurd (omega arith)
      first (suc fuel) lt = skip fuel ∙ given fuel (omega arith)
