-- ===== src/Process.antt =====
-- The state of the process: the kernel's, and the atomics that the crate keeps in statics.
use close_fds.Base.{ℕ, Bool, true, false, Action, none, some, ◌≡◌, refl}
use close_fds.Kernel.{Kernel}

pub record Process (K : Kernel) : Type 0 where
  pub world : K.World
  -- `MAY_HAVE_CLOSE_RANGE` (src/closefds/close.rs)
  pub may_have_close_range : Bool
  -- `HAS_CLOSE_RANGE` (src/closefds/close.rs): 1 present, 0 absent, otherwise unknown
  pub has_close_range : ℕ
  -- `MAY_HAVE_CLOSE_RANGE_CLOEXEC` (src/closefds/cloexec.rs)
  pub may_have_close_range_cloexec : Bool
  -- `IS_WSL1` (src/util.rs): 1 yes, 0 no, otherwise unknown
  pub is_wsl1 : ℕ
  -- `PROBED` (src/lib.rs)
  pub probed : Bool

-- The statics as the program starts.
abbrev pub start : {K : Kernel} → K.World → Process K
start w = record {
  world = w;
  may_have_close_range = true;
  has_close_range = 2;
  may_have_close_range_cloexec = true;
  is_wsl1 = 2;
  probed = false;
}

module _ {K : Kernel} where
  -- A call of the kernel that changes its state, and one that reads it.
  abbrev pub sys_call : (K.World → K.World) → Action (Process K) (Unit {0})
  sys_call f p = some (tt, record p { world = f p.world })

  abbrev pub sys_result : {A : Type 0} → (K.World → A × K.World) → Action (Process K) A
  sys_result f p = some ((f p.world).0, record p { world = (f p.world).1 })

  abbrev pub sys_read : {A : Type 0} → (K.World → A) → Action (Process K) A
  sys_read f p = some (f p.world, p)

  -- `assert!`: an assertion that fails is a panic.
  unfoldable pub check_that : Bool → Action (Process K) (Unit {0})
  check_that b p = elim b [ true ↦ some (tt, p) | false ↦ none ]

  pub check_that-true : (b : Bool) (p : Process K) → b ≡ true → check_that b p ≡ some (tt, p)
  unfolding check_that
  check_that-true b p e = rw e refl
