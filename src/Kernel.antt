-- ===== src/Kernel.antt =====
-- What the crate calls and does not implement: the system calls, the functions of the C library and
-- the layout of a directory entry, over an unknown state `World` of the operating system. A call that
-- only reads is a function of the state. What the theorems assume of a kernel is in `Kernel.Laws`.
pub mod Laws
pub mod Effect
pub mod Flags
pub mod Opening
pub mod Toy
use Prim.Native.String.{String}
use close_fds.Base.{ℕ, Bool, Option, List, ℤ}

pub record Kernel : Type 1 where
  pub World : Type 0
  -- `libc::close(fd)` and `closefrom(lowfd)`: the results are ignored
  pub close : ℤ → World → World
  pub closefrom : ℤ → World → World
  -- `libc::syscall(SYS_close_range, first, last, flags)`, and `errno` after it
  pub close_range : ℕ → ℕ → ℕ → World → ℤ × World
  pub errno : World → ℤ
  -- `libc::fcntl(fd, F_GETFD)` and `libc::fcntl(fd, F_SETFD, flags)`
  pub getfd : ℤ → World → ℤ
  pub setfd : ℤ → ℤ → World → World
  -- `libc::fcntl(0, F_MAXFD)` of NetBSD with `errno` cleared before: the result, and `errno`
  pub maxfd : World → ℤ × ℤ
  -- `libc::sysconf(_SC_OPEN_MAX)`
  pub open_max : World → ℤ
  -- the sysctls `KERN_PROC_NFDS` and `KERN_OSRELDATE` of FreeBSD: the result, and the number read
  pub proc_nfds : World → ℤ × ℤ
  pub osreldate : World → ℤ × ℤ
  -- `getdtablecount()` of OpenBSD
  pub getdtablecount : World → ℤ
  -- the array `release` that `libc::uname` fills
  pub uname_release : World → List ℕ
  -- `libc::open(path, O_RDONLY | O_CLOEXEC)`, with `O_DIRECTORY` if the flag is set
  pub open_path : String → Bool → World → ℤ × World
  -- the field `st_dev` by `libc::stat` and `libc::fstat`, `none` if the call fails
  pub stat_dev : String → World → Option ℕ
  pub fstat_dev : ℤ → World → Option ℕ
  -- `getdents(fd, buf)`: the number of bytes, and the buffer
  pub getdents : ℤ → List ℕ → World → ℤ × List ℕ × World
  -- the size of a `RawDirent`, and the fields `d_name` and `d_reclen` of the `RawDirent` at the start of some bytes
  pub dirent_size : ℕ
  pub d_name : List ℕ → List ℕ
  pub d_reclen : List ℕ → ℕ
