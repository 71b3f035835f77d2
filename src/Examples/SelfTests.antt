-- ===== src/Examples/SelfTests.antt =====
-- The theorems on the tests of src/iterfds/mod.rs, over the small kernel.
use close_fds.Base.{
  ℕ, List, [], ◌∷◌, refl, ◌≡◌, true, arith, ℤ, pos, negsuc, IsInt, ◌>>=◌, Returns, false,
}
use close_fds.Target.{linux, openbsd}
use close_fds.Process.{Process, start}
use close_fds.Kernel.Toy.{toy, sample}
use close_fds.Kernel.Toy.Bounded.{toy-IsBounded}
use close_fds.Kernel.Toy.Lawful.{toy-IsTable}
use close_fds.Kernel.Toy.Directory.{toy-IsDirectory, toy-Opens}
use close_fds.IterFds.Builder
use close_fds.IterFds.Builder.{iter_from, possible}
use close_fds.IterFds.Tests.{test_size_hint_generic, test_fused_generic}
use close_fds.IterFds.Tests.Passing.{test_size_hint_generic-passes}
use close_fds.Kernel.{Kernel}
use close_fds.Kernel.Opening.{SameTable}
use close_fds.Kernel.Toy.Opening.{open_root, toy-IsOpening, nothing_open, nothing_open-Room}
use close_fds.Sys.Dirent.{
  dirent_name, dirent_reclen, entry_bytes, IsDirent, get_entry_info-entry_bytes,
}
use close_fds.IterFds.DirFd.{DirFdIter, get_entry_info, parse_int_bytes}
use close_fds.IterFds.Tests.Files.{
  test_size_hint_open, test_size_hint_possible, test_fused_open, test_fused_possible,
}
use close_fds.IterFds.Tests.Whole.{tests-SameTable}
use close_fds.IterFds.Tests.Fused.{test_fused_generic-passes}

abbrev process : Process toy
process = start (sample false true)

test_size_hint_generic-passes_example :
    Returns
      ((iter_from linux toy (pos 0) Builder.new >>= test_size_hint_generic linux toy 65547) process)
      (λ _ q. (j : ℤ) → IsInt j → toy.getfd j q.world ≡ toy.getfd j process.world)
test_size_hint_generic-passes_example =
    test_size_hint_generic-passes linux toy toy-IsTable (pos 1023) 65535 (toy-IsBounded linux) 10
      toy-IsDirectory 65546 (omega arith) (pos 0) Builder.new process (toy-Opens linux)
      (omega arith)

test_fused_generic-passes_example :
    Returns
      ((iter_from openbsd toy (negsuc 4) (possible true Builder.new)
          >>= test_fused_generic openbsd toy 65547)
        process)
      (λ _ q. (j : ℤ) → IsInt j → toy.getfd j q.world ≡ toy.getfd j process.world)
test_fused_generic-passes_example =
    test_fused_generic-passes openbsd toy toy-IsTable (pos 1023) 65535 (toy-IsBounded openbsd) 10
      toy-IsDirectory 65546 (omega arith) (negsuc 4) (possible true Builder.new) process
      (toy-Opens openbsd) (omega arith)

abbrev none_open : Process toy
none_open = start nothing_open

tests-SameTable_example :
    Returns
      (test_size_hint_open linux toy open_root 65547 none_open)
      (λ _ q. SameTable toy none_open.world q.world)
    × Returns
        (test_size_hint_possible linux toy open_root 65547 none_open)
        (λ _ q. SameTable toy none_open.world q.world)
    × Returns
        (test_fused_open linux toy open_root 65547 none_open)
        (λ _ q. SameTable toy none_open.world q.world)
    × Returns
        (test_fused_possible linux toy open_root 65547 none_open)
        (λ _ q. SameTable toy none_open.world q.world)
tests-SameTable_example =
    tests-SameTable linux toy toy-IsTable (pos 1023) 65535 (toy-IsBounded linux) 10 toy-IsDirectory
      (toy-Opens linux) 65546 (omega arith) open_root toy-IsOpening none_open nothing_open-Room

-- The small kernel with the struct of FreeBSD.
abbrev freebsd_toy : Kernel
freebsd_toy = record toy { d_name = dirent_name; d_reclen = dirent_reclen false; dirent_size = 280 }

freebsd_toy-IsDirent : IsDirent freebsd_toy false
freebsd_toy-IsDirent = record { name_lem = λ bytes. refl; reclen_lem = λ bytes. refl }

abbrev zeros : List ℕ
zeros = 0 ∷ 0 ∷ 0 ∷ 0 ∷ 0 ∷ 0 ∷ 0 ∷ 0 ∷ 0 ∷ 0 ∷ 0 ∷ 0 ∷ 0 ∷ 0 ∷ 0 ∷ 0 ∷ []

-- The type, a length of the name that does not fit, and padding.
abbrev between : List ℕ
between = 10 ∷ 1 ∷ 7 ∷ 0 ∷ 2 ∷ 3 ∷ []

-- An entry with the name "42" behind 8 other bytes.
abbrev reading : DirFdIter
reading = record {
  minfd = pos 3;
  dirfd = pos 7;
  dirent_buf =
      b'.'
      ∷ 0
      ∷ 0
      ∷ 0
      ∷ 0
      ∷ 0
      ∷ 0
      ∷ 0
      ∷ entry_bytes false zeros 32 between (b'4' ∷ b'2' ∷ []) (0 ∷ 0 ∷ []);
  dirent_nbytes = 40;
  dirent_offset = 8;
}

get_entry_info-entry_bytes_example :
    get_entry_info freebsd_toy reading 8 ≡ (parse_int_bytes (b'4' ∷ b'2' ∷ []), 32)
get_entry_info-entry_bytes_example =
    get_entry_info-entry_bytes freebsd_toy false freebsd_toy-IsDirent reading 8 32 zeros between
      (b'4' ∷ b'2' ∷ []) (0 ∷ 0 ∷ []) refl refl refl (omega arith) (omega arith) (omega arith)
