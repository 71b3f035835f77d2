-- ===== src/CloseFds/KeepFds.antt =====
-- `KeepFds` of src/closefds/mod.rs: the descriptors to keep, with what is known about them.
pub mod Making
use close_fds.Base.{Bool, true, List, [], none, some, ℤ, negsuc, last?}
use close_fds.Util.{inspect_keep_fds}

pub record KeepFds : Type 0 where
  pub fds : List ℤ
  pub max : ℤ
  pub sorted : Bool

abbrev pub empty : KeepFds
empty = record { fds = []; max = negsuc 0; sorted = true }

unfoldable pub new : List ℤ → KeepFds
unfolding inspect_keep_fds
new fds =
    let (max, sorted) = inspect_keep_fds fds in record { fds = fds; max = max; sorted = sorted }

unfoldable pub new_sorted : List ℤ → KeepFds
new_sorted fds = record {
  fds = fds;
  max = elim (last? fds) [ none ↦ negsuc 0 | some fd ↦ fd ];
  sorted = true;
}
