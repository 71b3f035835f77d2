-- ===== src/Target.antt =====
-- The operating systems that the `#[cfg(target_os = …)]` attributes of the crate tell apart, and the
-- groups in which they name them.
use close_fds.Base.{Bool, true, false}

pub data Target : Type 0 where
  linux macos ios freebsd netbsd openbsd dragonfly solaris illumos other_unix : Target

-- The systems with the module `dirfd` (src/iterfds/mod.rs).
unfoldable pub has_dirfd : Target → Bool
has_dirfd openbsd = false
has_dirfd dragonfly = false
has_dirfd other_unix = false
has_dirfd _ = true

-- The systems on which `closefrom()` is declared (src/sys.rs) and called (src/closefds/close.rs).
unfoldable pub has_closefrom : Target → Bool
has_closefrom freebsd = true
has_closefrom netbsd = true
has_closefrom openbsd = true
has_closefrom dragonfly = true
has_closefrom _ = false

-- The systems with the "nfds" method (src/iterfds/fditer.rs).
unfoldable pub has_nfds : Target → Bool
has_nfds freebsd = true
has_nfds openbsd = true
has_nfds _ = false

-- The systems with `apply_range` (src/util.rs).
unfoldable pub has_apply_range : Target → Bool
has_apply_range linux = true
has_apply_range freebsd = true
has_apply_range _ = false

unfoldable pub is_linux : Target → Bool
is_linux linux = true
is_linux _ = false

unfoldable pub is_freebsd : Target → Bool
is_freebsd freebsd = true
is_freebsd _ = false

unfoldable pub is_openbsd : Target → Bool
is_openbsd openbsd = true
is_openbsd _ = false

unfoldable pub is_netbsd : Target → Bool
is_netbsd netbsd = true
is_netbsd _ = false
