-- ===== src/IterFds.antt =====
-- src/iterfds: the iterators over the descriptors of the process.
pub mod DirFd
pub mod FdIter
pub mod Builder
pub mod Contract
pub mod Loops
pub mod Steps
pub mod Scan
pub mod Listed
pub mod Least
pub mod Clamped
pub mod Collected
pub mod Tests
