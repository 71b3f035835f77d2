-- ===== src/CloseFds.antt =====
-- src/closefds: closing descriptors, or marking them close-on-exec.
pub mod KeepFds
pub mod KeepLoop
pub mod Request
pub mod Close
pub mod CloExec
pub mod Builder
