-- ===== src/IterFds/FdIter/Limits.antt =====
-- What the theorems assume of the ways in which a system tells how large a descriptor may be, which
-- src/iterfds/fditer.rs uses: `sysconf(_SC_OPEN_MAX)`, `F_MAXFD`, and the number of open descriptors.
use close_fds.Base.{ℕ, ◌≤◌, ◌≡◌, ◌⊎◌, true, false, ℤ, pos, negsuc, ◌≤ℤ◌, ◌<ℤ◌, int_max}
use close_fds.Target.{Target, has_nfds, is_netbsd, is_freebsd}
use close_fds.Kernel.{Kernel}
use close_fds.IterFds.FdIter.{clamp_limit}
use close_fds.IterFds.FdIter.MaxFd.{count}

-- No descriptor above a number is open.
abbrev pub NoneAbove : (K : Kernel) → ℤ → K.World → Type 0
NoneAbove K m w = (j : ℤ) → m <ℤ j → K.getfd j w ≡ negsuc 0

-- The clamped soft limit never falls below `limit`; `F_MAXFD` gives the largest open descriptor, which is
-- at most `top`, or -1 with `errno` cleared where none is open; the systems that count the open descriptors
-- do not give less than there are. Each is asked only of the system that has the call.
pub record IsBounded (target : Target) (K : Kernel) (limit : ℤ) (top : ℕ) : Type 0 where
  pub tops : (65535 ≤ top) × (pos top <ℤ int_max)
  pub soft : (w : K.World) → limit ≤ℤ clamp_limit target K (K.open_max w)
  pub maxfd_lem :
      (w : K.World)
      → is_netbsd target ≡ true
      → let (m, errno) = K.maxfd w in
        (m ≤ℤ pos top) × ((pos 0 ≤ℤ m) ⊎ ((m ≡ negsuc 0) × (errno ≡ pos 0)) → NoneAbove K m w)
  pub proc_nfds_lem :
      (w : K.World) (n : ℕ)
      → is_freebsd target ≡ true
      → (K.proc_nfds w).0 ≡ pos 0
      → pos (count K n w) ≤ℤ (K.proc_nfds w).1
  pub getdtablecount_lem :
      (w : K.World) (n : ℕ)
      → has_nfds target ≡ true
      → is_freebsd target ≡ false
      → pos (count K n w) ≤ℤ K.getdtablecount w
