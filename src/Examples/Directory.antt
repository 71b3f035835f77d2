-- ===== src/Examples/Directory.antt =====
-- The theorems on reading the directory of descriptors, over the small kernel.
use close_fds.Base.{
  ◌≡◌, true, false, List, [], ◌∷◌, arith, ℤ, pos, negsuc, ◌≤ℤ◌, ◌>>=◌, Returns, contains,
}
use close_fds.Target.{linux}
use close_fds.Process.{Process, start}
use close_fds.Kernel.Toy.{toy, sample}
use close_fds.Kernel.Toy.Bounded.{toy-IsBounded}
use close_fds.Kernel.Toy.Lawful.{toy-IsTable, toy-IsFlagTable}
use close_fds.Kernel.Toy.Directory.{toy-IsDirectory, toy-Opens}
use close_fds.Kernel.Effect.{closed}
use close_fds.Kernel.Flags.{with_cloexec}
use close_fds.Util.Simplify.{is_target}
use close_fds.IterFds.Builder as FdIters
use close_fds.IterFds.Builder.{iter_possible_fds}
use close_fds.IterFds.FdIter.{min_fd}
use close_fds.IterFds.Least.{IsLeast, min_fd-possible}
use close_fds.IterFds.DirFd.{DirFdIter}
use close_fds.CloseFds.KeepFds.{KeepFds}
use close_fds.CloseFds.Request.{IsKept}
use close_fds.CloseFds.KeepLoop.Started.{Outcome}
use close_fds.CloseFds.Close.{close_fds_from}
use close_fds.CloseFds.Close.Whole.{close_fds_from-listed}
use close_fds.CloseFds.CloExec.{set_fds_cloexec}
use close_fds.CloseFds.CloExec.Whole.{set_fds_cloexec-listed}
use close_fds.CloseFds.Builder
use close_fds.CloseFds.Builder.{keep_fds, closefrom, cloexecfrom}
use close_fds.CloseFds.Builder.Whole.{closefrom-Outcome, cloexecfrom-Outcome}

-- Without `close_range()`, but with the directory.
abbrev listing_process : Process toy
listing_process = start (sample false true)

abbrev keep : List ℤ
keep = pos 4 ∷ pos 6 ∷ []

abbrev kept : KeepFds
kept = record { fds = keep; max = pos 6; sorted = true }

kept_le : (fd : ℤ) → contains keep fd ≡ true → fd ≤ℤ pos 6
kept_le fd e = ground arith

kept-IsKept : IsKept kept
kept-IsKept = record { below_max = omega arith; flag = λ e. omega arith; bounded = kept_le }

close_fds_from-listed_example :
    Returns
      (close_fds_from linux toy 65547 (pos 3) kept FdIters.new listing_process)
      (λ _ q. Outcome toy closed (pos 1023) (is_target (pos 3) keep) listing_process.world q.world)
close_fds_from-listed_example =
    close_fds_from-listed linux toy toy-IsTable (pos 1023) 65535 (toy-IsBounded linux) 10
      toy-IsDirectory 65546 (pos 3) kept FdIters.new listing_process (toy-Opens linux) (omega arith)
      kept-IsKept (omega arith) (omega arith)

set_fds_cloexec-listed_example :
    Returns (set_fds_cloexec linux toy 65547 (pos 3) kept FdIters.new listing_process) (λ _ q.
      Outcome toy with_cloexec (pos 1023) (is_target (pos 3) keep) listing_process.world q.world)
set_fds_cloexec-listed_example =
    set_fds_cloexec-listed linux toy toy-IsTable toy-IsFlagTable (pos 1023) 65535
      (toy-IsBounded linux) 10 toy-IsDirectory 65546 (pos 3) kept FdIters.new listing_process
      (toy-Opens linux) (omega arith) kept-IsKept (omega arith) (omega arith)

-- An iterator with an empty buffer, which begins at descriptor 3.
abbrev unread : DirFdIter
unread = record {
  minfd = pos 3;
  dirfd = pos 8;
  dirent_buf = 0 ∷ 0 ∷ [];
  dirent_nbytes = 0;
  dirent_offset = 0;
}

-- Out of order, and with a negative number in it.
abbrev unsorted : List ℤ
unsorted = pos 6 ∷ negsuc 0 ∷ pos 4 ∷ []

closefrom-Outcome_example :
    Returns
      (closefrom linux toy 65547 (negsuc 4) (keep_fds unsorted Builder.new) listing_process)
      (λ _ q.
        Outcome toy closed (pos 1023) (is_target (negsuc 4) unsorted) listing_process.world q.world)
closefrom-Outcome_example =
    closefrom-Outcome linux toy toy-IsTable (pos 1023) 65535 (toy-IsBounded linux) 10
      toy-IsDirectory (toy-Opens linux) 65546 (omega arith) (negsuc 4) unsorted Builder.new
      listing_process (omega arith) (omega arith)

cloexecfrom-Outcome_example :
    Returns
      (cloexecfrom linux toy 65547 (negsuc 4) (keep_fds unsorted Builder.new) listing_process)
      (λ _ q.
        Outcome toy with_cloexec
          (pos 1023)
          (is_target (negsuc 4) unsorted)
          listing_process.world
          q.world)
cloexecfrom-Outcome_example =
    cloexecfrom-Outcome linux toy toy-IsTable (pos 1023) 65535 (toy-IsBounded linux) 10
      toy-IsDirectory (toy-Opens linux) 65546 (omega arith) toy-IsFlagTable (negsuc 4) unsorted
      Builder.new listing_process (omega arith) (omega arith)

min_fd-possible_example :
    Returns
      ((iter_possible_fds linux toy (negsuc 4) >>= min_fd linux toy 65547) listing_process)
      (λ r q. IsLeast linux toy (pos 1023) (negsuc 4) listing_process.world r q.world)
min_fd-possible_example =
    min_fd-possible linux toy (pos 1023) toy-IsTable 65535 (toy-IsBounded linux) 10 toy-IsDirectory
      65546 (negsuc 4) listing_process (toy-Opens linux) (omega arith) (omega arith)
