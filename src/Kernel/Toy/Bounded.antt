-- ===== src/Kernel/Toy/Bounded.antt =====
-- The small kernel meets the assumptions of `IterFds.FdIter.Limits`, on every system.
use close_fds.Base.{ℕ, zero, suc, ◌≤◌, ◌≡◌, refl, inl, inr, false, arith, leb, pos, Bool-cases}
use close_fds.Target.{Target}
use close_fds.Kernel.Toy.{World, toy, open_count}
use close_fds.Sys.{is_fd_valid}
use close_fds.IterFds.FdIter.MaxFd.{count, count_mono, count-skip}
use close_fds.IterFds.FdIter.Bounded.{clamp_limit-bounds}
use close_fds.IterFds.FdIter.Limits.{IsBounded}

count-open_count : (n : ℕ) (w : World) → count toy n w ≡ open_count n w
unfolding count open_count is_fd_valid
count-open_count zero w = refl
count-open_count (suc n) w = ground (arith, count-open_count n w)

unused_above : (j : ℕ) (w : World) → leb j 9 ≡ false → is_fd_valid toy (pos j) w ≡ false
unfolding is_fd_valid
unused_above j w e = ground arith

-- No descriptor from 10 on is open.
count_top : (n : ℕ) (w : World) → count toy n w ≤ count toy 10 w
count_top zero w = count_mono toy 0 10 w (omega arith)
count_top (suc n) w = elim (Bool-cases (leb n 9)) [
  | inl within ↦ count_mono toy (suc n) 10 w (ground arith)
  | inr beyond ↦ omega (arith, count-skip toy n w (unused_above n w beyond), count_top n w)
]

pub toy-IsBounded : (target : Target) → IsBounded target toy (pos 1023) 65535
toy-IsBounded target = record {
  tops = (omega arith, omega arith);
  soft = λ w. (clamp_limit-bounds target toy (pos 10)).0;
  maxfd_lem = λ w netbsd. (omega arith, λ tells j above. ground arith);
  proc_nfds_lem = λ w n freebsd done. omega (arith, count_top n w, count-open_count 10 w);
  getdtablecount_lem = λ w n has other. omega (arith, count_top n w, count-open_count 10 w);
}
