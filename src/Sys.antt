-- ===== src/Sys.antt =====
-- The parts of src/util.rs that call the kernel.
pub mod Cached
pub mod Dirent
pub mod Tests
use Prim.Native.Nat.{bit_and, bit_or}
use Prim.Native.String.{String}
use Prim.Native.Char.{code}
use close_fds.Base.{
  ℕ, ◌-◌, Bool, true, false, not, ◌&&◌, none, some, List, [], ◌∷◌, if◌then◌else◌, ◌==◌, leb, ℤ, pos,
  pos_part, leb_ℤ, length, drop, take, position, Action, pure, ◌>>=◌,
}
use close_fds.Kernel.{Kernel}
use close_fds.Process.{Process, sys_read, sys_call}

-- The code points of an ASCII text, which are its bytes.
abbrev pub codes : String → List ℕ
codes String.[] = []
codes (String.◌∷◌ c s) = code c ∷ codes s

abbrev pub eq_bytes : List ℕ → List ℕ → Bool
eq_bytes [] [] = true
eq_bytes [] (y ∷ ys) = false
eq_bytes (x ∷ xs) [] = false
eq_bytes (x ∷ xs) (y ∷ ys) = x == y && eq_bytes xs ys

-- `slice.ends_with(suffix)`
unfoldable pub ends_with : List ℕ → List ℕ → Bool
ends_with xs suffix =
    leb (length suffix) (length xs) && eq_bytes (drop (length xs - length suffix) xs) suffix

-- The bytes of a C string in an array: those before the first 0, or all.
unfoldable pub c_string : List ℕ → List ℕ
c_string cs = elim (position (λ c. c == 0) cs) [ none ↦ cs | some i ↦ take i cs ]

-- The test on the release name in `is_wsl_1`.
unfoldable pub is_wsl_1_release : List ℕ → Bool
unfolding ends_with c_string
is_wsl_1_release release = ends_with (c_string release) (codes "Microsoft")

module _ (K : Kernel) where
  unfoldable pub is_wsl_1 : Action (Process K) Bool
  unfolding is_wsl_1_release
  is_wsl_1 p =
      if p.is_wsl1 == 1
      then some (true, p)
      else if p.is_wsl1 == 0
      then some (false, p)
      else let answer = is_wsl_1_release (K.uname_release p.world) in
        some (answer, record p { is_wsl1 = if answer then 1 else 0 })

  -- `F_GETFD` gives the flags of an open descriptor, and -1 for any other.
  unfoldable pub is_fd_valid : ℤ → K.World → Bool
  is_fd_valid fd w = leb_ℤ (pos 0) (K.getfd fd w)

  unfoldable pub set_cloexec : ℤ → Action (Process K) (Unit {0})
  set_cloexec fd = do
    flags ← sys_read (K.getfd fd)
    if leb_ℤ (pos 0) flags && not (bit_and (pos_part flags) 1 == 1)
        then sys_call (K.setfd fd (pos (bit_or (pos_part flags) 1)))
        else pure tt
