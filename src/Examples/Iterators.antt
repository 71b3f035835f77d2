-- ===== src/Examples/Iterators.antt =====
-- The theorems on whole iterators, at concrete inputs.
use close_fds.Base.{
  negsuc, ℕ, ◌∷◌, [], inl, inr, sym, ◌∙◌, pos_part, int_max, IsInt, contains, ◌≤ℤ◌, ◌≡◌, refl, none,
  some, true, false, arith, ℤ, pos, ◌>>=◌, Returns,
}
use close_fds.Target.{linux}
use close_fds.Process.{Process, start}
use close_fds.Sys.{is_fd_valid}
use close_fds.Kernel.Toy.{toy, sample}
use close_fds.Kernel.Toy.Bounded.{toy-IsBounded}
use close_fds.Kernel.Toy.Lawful.{toy-IsTable}
use close_fds.Kernel.Toy.Directory.{toy-IsDirectory, toy-Opens}
use close_fds.Kernel.Toy.Exact.{toy-IsExact}
use close_fds.IterFds.Collected.Exact.{collected-exactly_open}
use close_fds.Kernel.Toy.Directory.{digit_name}
use close_fds.IterFds.DirFd.{DirFdIter, size_hint}
use close_fds.IterFds.DirFd.Decimal.{decimal-digit}
use close_fds.IterFds.DirFd.Listing.{IsListing}
use close_fds.IterFds.DirFd.Gives.{Gives}
use close_fds.IterFds.DirFd.Hint.{size_hint-Gives}
use close_fds.IterFds.Builder
use close_fds.IterFds.Builder.{iter_from}
use close_fds.IterFds.FdIter
use close_fds.IterFds.FdIter.{FdIter, max_fd, scan}
use close_fds.IterFds.FdIter.Fused.{next-fused}
use close_fds.IterFds.Collected.{collected}
use close_fds.IterFds.Collected.Greatest.{IsGreatestOpen, max_fd-IsGreatestOpen}
use close_fds.IterFds.Collected.Whole.{AreAll, IsGreatest, collected-AreAll, max_fd-IsGreatest}

-- With a directory that lists 0 to 6, and 8.
abbrev process : Process toy
process = start (sample false true)

-- Descriptor 7 has been opened in the meantime.
abbrev other_process : Process toy
other_process = start (record (sample false true) { table = λ fd. pos 0 })

-- An iterator that scans from a number on, up to descriptor 7.
abbrev scanning : ℤ → FdIter
scanning fd = record {
  dirfd_iter = none;
  curfd = fd;
  possible = false;
  maxfd = some (pos 7);
  skip_nfds = false;
}

none_left :
    FdIter.next linux toy 5 (scanning (pos 7)) process ≡ some ((none, scanning (pos 8)), process)
unfolding FdIter.next FdIter.next_possible FdIter.get_maxfd scan is_fd_valid
none_left = refl

next-fused_example :
    FdIter.next linux toy 3 (scanning (pos 8)) other_process
    ≡ some ((none, scanning (pos 8)), other_process)
next-fused_example =
    next-fused linux toy 5 (scanning (pos 7)) (scanning (pos 8)) process process none_left 2
      other_process

collected-AreAll_example :
    Returns
      ((iter_from linux toy (negsuc 4) Builder.new >>= collected linux toy 65547 65547) process)
      (λ fds q. AreAll toy (pos 1023) (negsuc 4) process.world fds q.world)
collected-AreAll_example =
    collected-AreAll linux toy toy-IsTable (pos 1023) 65535 (toy-IsBounded linux) 10 toy-IsDirectory
      65546 (negsuc 4) Builder.new process (toy-Opens linux) (omega arith) (omega arith)

max_fd-IsGreatest_example :
    Returns
      ((iter_from linux toy (negsuc 4) Builder.new >>= max_fd linux toy 65547) process)
      (λ r q. IsGreatest toy (pos 1023) (negsuc 4) process.world r q.world)
max_fd-IsGreatest_example =
    max_fd-IsGreatest linux toy toy-IsTable (pos 1023) 65535 (toy-IsBounded linux) 10
      toy-IsDirectory 65546 (negsuc 4) Builder.new process (toy-Opens linux) (omega arith)
      (omega arith)

collected-exactly_open_example :
    Returns
      ((iter_from linux toy (negsuc 4) Builder.new >>= collected linux toy 65547 65547) process)
      (λ fds q.
        AreAll toy (pos 1023) (negsuc 4) process.world fds q.world
        × ((j : ℤ) → IsInt j → contains fds j ≡ true → pos 0 ≤ℤ toy.getfd j process.world))
collected-exactly_open_example =
    collected-exactly_open linux toy toy-IsTable (pos 1023) 65535 (toy-IsBounded linux) 10
      toy-IsDirectory toy-IsExact 65546 (negsuc 4) Builder.new process (toy-Opens linux)
      (omega arith) (omega arith) refl

max_fd-IsGreatestOpen_example :
    Returns
      ((iter_from linux toy (negsuc 4) Builder.new >>= max_fd linux toy 65547) process)
      (λ r q. IsGreatestOpen toy (pos 1023) (negsuc 4) process.world r q.world)
max_fd-IsGreatestOpen_example =
    max_fd-IsGreatestOpen linux toy toy-IsTable (pos 1023) 65535 (toy-IsBounded linux) 10
      toy-IsDirectory toy-IsExact 65546 (negsuc 4) Builder.new process (toy-Opens linux)
      (omega arith) (omega arith) refl

-- Descriptor 5 is in the buffer, once 3 and 4 have been given.
abbrev buffered : DirFdIter
buffered = record {
  minfd = pos 3;
  dirfd = pos 8;
  dirent_buf = b'5' ∷ 0 ∷ [];
  dirent_nbytes = 2;
  dirent_offset = 0;
}

abbrev reading_process : Process toy
reading_process = start (record (sample false true) { cursor = 6 })

buffered-IsListing :
    IsListing toy 10 toy-IsDirectory buffered (pos 5) reading_process.world 1 (pos 5)
unfolding toy-IsDirectory
buffered-IsListing = record {
  live = (omega arith, omega arith);
  lists = tt;
  from_min = (omega arith, omega arith);
  start = inl (omega arith);
  passed = λ j from below foreign. absurd (omega arith);
  ahead = (
    omega arith,
    inr (
      5,
      digit_name 5 ∙ sym (decimal-digit 5 (omega arith)),
      omega arith,
      omega arith,
      λ j from below. absurd (omega arith),
      (omega arith, omega arith, λ j from below. absurd (omega arith)),
    ),
  );
}

size_hint-Gives_example :
    (n : ℕ) × (size_hint toy 2 buffered ≡ some (n, pos_part int_max))
    × Gives toy 1 n buffered reading_process
size_hint-Gives_example =
    size_hint-Gives toy 10 toy-IsDirectory buffered (pos 5) reading_process 1 2 (pos 5)
      buffered-IsListing (inl (omega arith)) (omega arith)
