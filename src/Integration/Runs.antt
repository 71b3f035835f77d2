-- ===== src/Integration/Runs.antt =====
-- Runs of tests/test_close_fds.rs over the small kernel.
use close_fds.Base.{
  ℕ, Bool, true, false, ◌&&◌, Option, none, some, ◌≡◌, refl, if◌then◌else◌, pos, negsuc, ltb_ℤ,
  leb_ℤ,
}
use close_fds.Target.{Target, linux, freebsd, netbsd, openbsd}
use close_fds.Process.{Process, start}
use close_fds.Kernel.Toy.{toy, getdents, open_path, open_count}
use close_fds.Kernel.Toy.Opening.{open_root}
use close_fds.CommandClose.{Calls}
use close_fds.CloseFds.Builder
use close_fds.CloseFds.Builder.{CloseFdsBuilder}
use close_fds.Integration.{basic_tests, last_tests, no_fds_child}

abbrev calls : Calls toy
calls = record {
  open_root = λ w. let (fd, v) = open_root w in if ltb_ℤ fd (pos 0) then none else some (fd, v);
  setfd_result = λ fd flags w. if leb_ℤ (pos 0) (toy.getfd fd w) then pos 0 else negsuc 0;
}

-- The descriptors 0 to 2 are open.
abbrev standard : Bool → Process toy
standard has_range = start (record {
  table = λ fd. if ltb_ℤ fd (pos 3) then pos 0 else negsuc 0;
  has_range = has_range;
  has_directory = true;
  cursor = 0;
})

abbrev succeeds : {A : Type 0} → Option A → Bool
succeeds none = false
succeeds (some a) = true

basic : Target → Bool → Bool → Bool → Bool
unfolding basic_tests Builder.threadsafe Builder.allow_filesystem
basic target has_range fs threadsafe =
    let builder =
      Builder.threadsafe target threadsafe (Builder.allow_filesystem target fs Builder.new) in
    succeeds (basic_tests target toy 20 calls builder (standard has_range))

-- With each setting that `run_tests` loops over.
all_basic : Target → Bool → Bool
all_basic target has_range =
    basic target has_range true true
    && basic target has_range true false
    && basic target has_range false true
    && basic target has_range false false

basic_netbsd : all_basic netbsd false ≡ true
unfolding all_basic basic open_root open_path getdents
basic_netbsd = refl

last : Target → Bool → Bool
unfolding last_tests
last target has_range = succeeds (last_tests target toy 20 (standard has_range))

last_linux : last linux true ≡ true
unfolding last open_path getdents
last_linux = refl

last_freebsd : last freebsd false ≡ true
unfolding last open_path getdents
last_freebsd = refl

exit_code : Target → Bool → Option ℕ
unfolding no_fds_child
exit_code target has_range = elim (no_fds_child target toy 20 open_root (standard has_range)) [
  | none ↦ none
  | some (code, _) ↦ some code
]

exit_linux : exit_code linux true ≡ some 0
unfolding exit_code open_root open_path getdents
exit_linux = refl

exit_netbsd : exit_code netbsd false ≡ some 0
unfolding exit_code open_root open_path getdents
exit_netbsd = refl

exit_openbsd : exit_code openbsd false ≡ some 0
unfolding exit_code open_root open_path getdents open_count
exit_openbsd = refl
