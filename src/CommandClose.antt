-- ===== src/CommandClose.antt =====
-- examples/command-close.rs: what a child process that runs another program inherits.
pub mod Bits
pub mod Inherited
pub mod Files
pub mod Child
use Prim.Native.Nat.{bit_and}
use close_fds.Base.{
  ℕ, Bool, true, false, Option, none, some, List, [], ◌∷◌, if◌then◌else◌, ◌==◌, ℤ, pos, pos_part,
  leb_ℤ, ltb_ℤ, eqb_ℤ, Action, pure, ◌>>=◌, ◌>>◌,
}
use close_fds.Target.{Target, macos, ios}
use close_fds.Kernel.{Kernel}
use close_fds.Process.{Process, sys_read, sys_call}
use close_fds.CloseFds.Builder.{set_fds_cloexec, close_open_fds}

-- What the program calls, beyond what the crate does: `fs::File::open("/")`, with the descriptor of the
-- file, `none` where it is an error; and the result of `libc::fcntl(fd, F_SETFD, flags)`.
pub record Calls (K : Kernel) : Type 0 where
  pub open_root : K.World → Option (ℤ × K.World)
  pub setfd_result : ℤ → ℤ → K.World → ℤ

unfoldable pub is_macos : Target → Bool
is_macos macos = true
is_macos ios = true
is_macos _ = false

-- `[f1, f3]` after `sort_unstable`
unfoldable pub kept_files : ℤ → ℤ → List ℤ
kept_files f1 f3 = if ltb_ℤ f3 f1 then f3 ∷ f1 ∷ [] else f1 ∷ f3 ∷ []

-- `flags & !FD_CLOEXEC`, of flags that are not negative
abbrev pub cleared : ℤ → ℤ
cleared flags = pos (bit_and (pos_part flags) 4294967294)

module _ (K : Kernel) (C : Calls K) where
  -- An assertion that fails is a panic.
  unfoldable pub unset_cloexec : ℤ → Action (Process K) (Unit {0})
  unset_cloexec fd = do
    flags ← sys_read (K.getfd fd)
    if leb_ℤ (pos 0) flags
        then (if bit_and (pos_part flags) 1 == 0 then pure tt else do
          result ← sys_read (C.setfd_result fd (cleared flags))
          _ ← sys_call (K.setfd fd (cleared flags))
          if eqb_ℤ result (pos 0) then pure tt else (λ p. none))
        else (λ p. none)

  -- `fs::File::open("/").unwrap()`
  unfoldable pub open_file : Action (Process K) ℤ
  open_file p = elim (C.open_root p.world) [
    | none ↦ none
    | some (fd, w) ↦ some (fd, record p { world = w })
  ]

  unfoldable pub open_files : Action (Process K) (ℤ × ℤ × ℤ)
  unfolding open_file unset_cloexec
  open_files = do
    f1 ← open_file
    f2 ← open_file
    f3 ← open_file
    _ ← unset_cloexec f1
    _ ← unset_cloexec f2
    _ ← unset_cloexec f3
    pure (f1, f2, f3)

module _ (target : Target) (K : Kernel) (fuel : ℕ) where
  -- The closure for `pre_exec`.
  unfoldable pub before_exec : List ℤ → Action (Process K) (Unit {0})
  unfolding is_macos set_fds_cloexec close_open_fds
  before_exec keep_fds =
      if is_macos target
      then set_fds_cloexec target K fuel (pos 3) keep_fds
      else close_open_fds target K fuel (pos 3) keep_fds

  -- `main` up to the program that the child runs.
  unfoldable pub run_child : Calls K → Action (Process K) (ℤ × ℤ × ℤ)
  unfolding open_files kept_files before_exec
  run_child C = do
    (f1, f2, f3) ← open_files K C
    _ ← before_exec (kept_files f1 f3)
    pure (f1, f2, f3)
