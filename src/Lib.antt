-- ===== src/Lib.antt =====
-- A model of the crate `close_fds`, which closes the open file descriptors of a process or marks them
-- close-on-exec, and theorems about it.
--
-- Parts and files
--
-- Base: shared names, signed integers (`c_int` with wrap-around), lists, and actions that change the
--   state of the process. An action gives `none` if its fuel ran out or if the code panics.
-- Target: the operating systems that the `cfg` attributes tell apart. Every definition is for all of
--   them; a field that a system lacks keeps its first value there.
-- Kernel: the system calls and the C library, as a record of functions over an unknown state.
--   Kernel.Laws says what the theorems assume of it, Kernel.Flags what they assume of close-on-exec
--   flags, Kernel.Effect how a call may change the table of descriptors, and Kernel.Toy is a small
--   instance for tests.
-- Process: the kernel's state with the atomics that the crate keeps in statics.
-- Util and Sys: src/util.rs, the pure routines and those that call the kernel. Util.Inspect,
--   Util.Simplify, Util.Keep, Util.Gaps, Util.Ranges, Util.Calls, Util.Overflow and Sys.Cached prove.
-- IterFds.DirFd: src/iterfds/dirfd.rs; IterFds.FdIter: src/iterfds/fditer.rs; IterFds.Builder:
--   src/iterfds/mod.rs. IterFds.Contract is the interface of laws by which a loop uses an iterator,
--   IterFds.Steps the parts of such a loop, IterFds.Loops the loop `for fd in fditer`, and
--   IterFds.Scan fills the interface for an iterator that does not read a directory.
--   IterFds.FdIter.Search is about its loop, IterFds.FdIter.Given and IterFds.FdIter.Hint about the
--   number of descriptors it gives, IterFds.FdIter.MaxFd about the search by the nfds method,
--   IterFds.FdIter.Limits says what is assumed of the ways to tell how large a descriptor may be, and
--   IterFds.FdIter.Bounded that the code's answer is a bound;
--   IterFds.DirFd.Parse and IterFds.DirFd.Decimal about the names of entries, and Sys.Dirent about the
--   `struct dirent` of FreeBSD, which src/sys.rs declares. What is assumed of the
--   directory is in IterFds.DirFd.Laws; IterFds.DirFd.Listing, IterFds.DirFd.Reading
--   and IterFds.DirFd.Refill follow the loop that reads it, IterFds.DirFd.Opened is about opening it,
--   IterFds.DirFd.Gives and IterFds.DirFd.Hint about its `size_hint`, and IterFds.Listed fills the
--   interface for an iterator that reads it. IterFds.Clamped is about a negative `minfd`,
--   IterFds.Collected about all descriptors that an iterator gives and about `max`, IterFds.Least about
--   `min`, and IterFds.FdIter.Fused about the calls of `next` behind the end. That what an iterator
--   gives is open is in IterFds.DirFd.Exact, IterFds.FdIter.Exact and IterFds.Collected.Exact, and
--   IterFds.Collected.Greatest is about `max` there.
-- CloseFds.KeepFds and CloseFds.Builder: src/closefds/mod.rs; CloseFds.Close: src/closefds/close.rs,
--   where `close_fds` is `close_fds_from`; CloseFds.CloExec: src/closefds/cloexec.rs; both have files
--   below them on the shortcut, the rest and the whole. Their loops differ only in what they do to a
--   descriptor and to the rest of them, so CloseFds.KeepLoop is one loop for both, with that as
--   parameters; CloseFds.KeepLoop.Refine is about the loop, CloseFds.KeepLoop.Started about a
--   shortcut followed by it, CloseFds.KeepLoop.Scanned and CloseFds.KeepLoop.Listed about the start,
--   and CloseFds.Request about what shortcuts are asked for. CloseFds.Builder.Whole is about the two
--   actions of the builder.
-- Probe: `probe_features` of src/lib.rs; Probe.Once proves.
-- CommandClose: examples/command-close.rs; CommandClose.Bits and CommandClose.Inherited are about `unset_cloexec`,
--   CommandClose.Files about opening the files, CommandClose.Child about the whole run.
-- Util.Tests, Sys.Tests, IterFds.DirFd.Tests and IterFds.Tests: the `mod tests` of src/util.rs (those that
--   call the kernel in Sys.Tests), src/iterfds/dirfd.rs and src/iterfds/mod.rs.
--   IterFds.Tests.Counted, IterFds.Tests.Hints and IterFds.Tests.Loop are about `size_hint` during a run,
--   IterFds.Tests.Passing and IterFds.Tests.Fused about the two generic tests, IterFds.Tests.Files and
--   IterFds.Tests.Whole about those that open files in between. What they assume of `libc::open` is in
--   Kernel.Opening.
-- Integration: tests/test_close_fds.rs; Integration.Runs runs it over the small kernel.
-- Tests and Examples: runs on concrete inputs, and the theorems at concrete inputs.
--
-- A builder makes an iterator, `close_fds` simplifies the list to keep, tries `closefrom()` or
-- `close_range()`, and otherwise takes descriptors from the iterator and closes those not kept.
--
-- Conventions
--
-- A descriptor is an integer; sums and differences wrap around at 32 bits, as in a release build,
--   where a debug build panics. `debug_assert!` is not modelled. `usize` has 64 bits.
-- Loops without a bound of their own take fuel. The iterator without a directory looks at no number above
--   `top`, which the code's clamp of the soft limit makes 65535 unless the system itself tells a larger
--   one, so fuel for more rounds is enough there; the directory gives at most as many descriptors as it
--   has entries, and a scan may follow if it fails. The loops of src/util.rs recur on the list.
-- A call that only reads is a function of the kernel's state; `Ordering::Relaxed` atomics are plain
--   fields, since the model has one thread.
--
-- Not modelled: the extern declarations and the numbers of calls in src/sys.rs, the layout of a directory
-- entry outside FreeBSD, which is part of the kernel, other threads, `std::process::Command`, which runs the
-- closure of the example program in the child, and of tests/test_close_fds.rs `large_open_fds_test`, which
-- needs 150 files, the loops around the tests, and the parent of the fork.
pub mod Base
pub mod Target
pub mod Kernel
pub mod Process
pub mod Util
pub mod Sys
pub mod IterFds
pub mod CloseFds
pub mod Probe
pub mod CommandClose
pub mod Integration
pub mod Tests
pub mod Examples
