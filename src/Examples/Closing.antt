-- ===== src/Examples/Closing.antt =====
-- The theorems on shortcuts and scans, over the small kernel.
use close_fds.Base.{
  none, Bool-cases, leb, inl, inr, ℕ, zero, suc, ◌≤◌, ◌≡◌, refl, true, false, some, List, [], ◌∷◌,
  arith, ℤ, pos, ◌≤ℤ◌, contains, Returns,
}
use close_fds.Target.{linux, freebsd}
use close_fds.Process.{Process, start}
use close_fds.Kernel.Toy.{toy, sample}
use close_fds.Kernel.Toy.Bounded.{toy-IsBounded}
use close_fds.Kernel.Toy.Lawful.{toy-IsTable, toy-IsFlagTable}
use close_fds.Kernel.Effect.{closed, Attempts}
use close_fds.Kernel.Flags.{with_cloexec}
use close_fds.Util.Simplify.{is_target}
use close_fds.IterFds.Builder
use close_fds.Sys.{is_fd_valid}
use close_fds.IterFds.FdIter.{nfds_to_maxfd}
use close_fds.IterFds.FdIter.MaxFd.{
  count, count_mono, count-skip, IsLargest, nfds_to_maxfd-IsLargest, nfds_to_maxfd-finds,
}
use close_fds.Probe.{probe_features}
use close_fds.Probe.Once.{probe_features-once}
use close_fds.IterFds.FdIter.{FdIter, scan}
use close_fds.IterFds.FdIter.Search.{IsFirst, scan-IsFirst}
use close_fds.IterFds.FdIter.Given.{given}
use close_fds.IterFds.FdIter.Hint.{size_hint-given}
use close_fds.IterFds.FdIter
use close_fds.CloseFds.KeepFds.{KeepFds}
use close_fds.CloseFds.Close.{close_fds_shortcut, close_fds_from}
use close_fds.CloseFds.Request.{IsRequest, IsKept}
use close_fds.CloseFds.KeepLoop.Started.{Outcome}
use close_fds.CloseFds.Close.Whole.{close_fds_from-scan}
use close_fds.CloseFds.Close.Shortcut.{close_fds_shortcut-Attempts}
use close_fds.CloseFds.CloExec.{set_cloexec_shortcut, set_fds_cloexec}
use close_fds.CloseFds.CloExec.Shortcut.{set_cloexec_shortcut-Attempts}
use close_fds.CloseFds.CloExec.Whole.{set_fds_cloexec-scan}

abbrev keep : List ℤ
keep = pos 4 ∷ pos 6 ∷ []

abbrev process : Process toy
process = start (sample true true)

keep_le : (fd : ℤ) → contains keep fd ≡ true → fd ≤ℤ pos 6
keep_le fd e = ground arith

request : IsRequest (pos 3) keep (pos 6) true
request = record {
  nonneg = omega arith;
  within = omega arith;
  below_max = omega arith;
  flag = λ e. omega arith;
  bounded = keep_le;
}

close_fds_shortcut-Attempts_example :
    Returns
      (close_fds_shortcut linux toy (pos 3) keep (pos 6) true process)
      (λ r q. Attempts toy closed (is_target (pos 3) keep) process.world r q.world)
close_fds_shortcut-Attempts_example =
    close_fds_shortcut-Attempts linux toy toy-IsTable (pos 3) keep (pos 6) true process request

-- Without `close_range()`, so that the shortcut fails and the loop runs.
abbrev old_process : Process toy
old_process = start (sample false false)

abbrev kept : KeepFds
kept = record { fds = keep; max = pos 6; sorted = true }

kept-IsKept : IsKept kept
kept-IsKept = record { below_max = omega arith; flag = λ e. omega arith; bounded = keep_le }

close_fds_from-scan_example :
    Returns
      (close_fds_from linux toy 65537
        (pos 3)
        kept
        (Builder.allow_filesystem linux false Builder.new)
        old_process)
      (λ _ q. Outcome toy closed (pos 1023) (is_target (pos 3) keep) old_process.world q.world)
unfolding Builder.allow_filesystem
close_fds_from-scan_example =
    close_fds_from-scan linux toy toy-IsTable (pos 1023) 65535 (toy-IsBounded linux) 65536
      (omega arith) (pos 3) kept (Builder.allow_filesystem linux false Builder.new) old_process refl
      kept-IsKept (omega arith) (omega arith)

set_cloexec_shortcut-Attempts_example :
    Returns
      (set_cloexec_shortcut toy (pos 3) keep (pos 6) true process)
      (λ r q. Attempts toy with_cloexec (is_target (pos 3) keep) process.world r q.world)
set_cloexec_shortcut-Attempts_example =
    set_cloexec_shortcut-Attempts toy toy-IsTable toy-IsFlagTable (pos 3) keep (pos 6) true process
      request

set_fds_cloexec-scan_example :
    Returns
      (set_fds_cloexec freebsd toy 65537
        (pos 3)
        kept
        (Builder.allow_filesystem freebsd false Builder.new)
        old_process)
      (λ _ q.
        Outcome toy with_cloexec (pos 1023) (is_target (pos 3) keep) old_process.world q.world)
unfolding Builder.allow_filesystem
set_fds_cloexec-scan_example =
    set_fds_cloexec-scan freebsd toy toy-IsTable toy-IsFlagTable (pos 1023) 65535
      (toy-IsBounded freebsd) 65536 (omega arith) (pos 3) kept
      (Builder.allow_filesystem freebsd false Builder.new) old_process refl kept-IsKept
      (omega arith) (omega arith)

unused_above : (j : ℕ) → leb j 9 ≡ false → is_fd_valid toy (pos j) (sample true true) ≡ false
unfolding is_fd_valid
unused_above j e = ground arith

-- Eight descriptors of the small kernel are open.
count-sample : (k : ℕ) → count toy k (sample true true) ≤ 8
unfolding count is_fd_valid
count-sample zero = omega arith
count-sample (suc k) = elim (Bool-cases (leb k 9)) [
  | inl within ↦ count_mono toy (suc k) 10 (sample true true) (ground arith)
  | inr beyond ↦
      let unused : is_fd_valid toy (pos k) (sample true true) ≡ false = unused_above k beyond in
      omega (arith, count-skip toy k (sample true true) unused, count-sample k)
]

sample_maxfd : nfds_to_maxfd freebsd toy (pos 8) (sample true true) ≡ some (pos 8)
unfolding nfds_to_maxfd
sample_maxfd = refl

nfds_to_maxfd-IsLargest_example : IsLargest toy (pos 8) (sample true true)
nfds_to_maxfd-IsLargest_example =
    nfds_to_maxfd-IsLargest freebsd toy (pos 8) (pos 8) (sample true true)
      (λ k. omega (arith, count-sample k)) sample_maxfd

nfds_to_maxfd-finds_example :
    (m : ℤ) × (nfds_to_maxfd freebsd toy (pos 8) (sample true true) ≡ some m)
    × IsLargest toy m (sample true true)
unfolding count is_fd_valid
nfds_to_maxfd-finds_example =
    nfds_to_maxfd-finds freebsd toy 7 (sample true true) (omega arith) count-sample (omega arith)

probe_features-once_example :
    Returns (probe_features linux toy process) (λ _ q. probe_features linux toy q ≡ some (tt, q))
probe_features-once_example = probe_features-once linux toy process

-- The search goes on from 7, which is closed.
abbrev searching : FdIter
searching = record {
  dirfd_iter = none;
  curfd = pos 7;
  possible = false;
  maxfd = none;
  skip_nfds = false;
}

scan-IsFirst_example :
    Returns
      (scan linux toy 4 (pos 9) searching process)
      (λ a q. IsFirst linux toy (pos 9) searching process a × (q ≡ process))
scan-IsFirst_example =
    scan-IsFirst linux toy (pos 9) 3 searching process (omega arith) (omega arith) (omega arith)

-- The search knows that it ends at 9.
abbrev bounded_search : FdIter
bounded_search = record searching { maxfd = some (pos 9) }

size_hint-given_example :
    (low : ℕ) × (high : ℕ) × (FdIter.size_hint linux toy 4 bounded_search ≡ some (low, high))
    × (bounded_search.possible ≡ true → low ≡ high)
    × Returns (given linux toy 5 5 bounded_search process) (λ n q. (low ≤ n) × (n ≤ high))
size_hint-given_example =
    size_hint-given linux toy 4 4 4 bounded_search (pos 9) process refl refl (omega arith)
      (omega arith) (omega arith) (omega arith) (omega arith)
