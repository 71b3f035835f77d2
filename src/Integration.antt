-- ===== src/Integration.antt =====
-- tests/test_close_fds.rs: the tests with three files, those at the end of `run_tests`, and the child
-- without descriptors. An assertion that fails is a panic.
pub mod Runs
use close_fds.Base.{
  ℕ, zero, suc, Bool, true, false, not, ◌&&◌, Option, none, some, List, [], ◌∷◌, if◌then◌else◌,
  ◌==◌, ℤ, pos, negsuc, leb_ℤ, ltb_ℤ, eqb_ℤ, length, last?, contains, Action, pure, ◌>>=◌, ◌>>◌,
}
use close_fds.Target.{Target}
use close_fds.Kernel.{Kernel}
use close_fds.Process.{Process, sys_read, sys_call, sys_result, check_that}
use close_fds.CommandClose.{Calls, open_file}
use close_fds.IterFds.FdIter
use close_fds.IterFds.FdIter.{FdIter}
use close_fds.IterFds.Builder as FdIters
use close_fds.IterFds.Builder.{FdIterBuilder}
use close_fds.IterFds.Collected.{collected}
use close_fds.IterFds.Tests.{is_none}
use close_fds.CloseFds.Builder
use close_fds.CloseFds.Builder.{CloseFdsBuilder}

-- `check_sorted` on descriptors, as a test.
unfoldable check_sorted : List ℤ → Bool
check_sorted [] = true
check_sorted (x ∷ []) = true
check_sorted (x ∷ y ∷ items) = leb_ℤ x y && check_sorted (y ∷ items)

abbrev contains_all : List ℤ → List ℤ → Bool
contains_all fds [] = true
contains_all fds (x ∷ xs) = contains fds x && contains_all fds xs

abbrev contains_none : List ℤ → List ℤ → Bool
contains_none fds [] = true
contains_none fds (x ∷ xs) = not (contains fds x) && contains_none fds xs

abbrev same_option : Option ℤ → Option ℤ → Bool
same_option none none = true
same_option (some a) (some b) = eqb_ℤ a b
same_option _ _ = false

abbrev same_list : List ℤ → List ℤ → Bool
same_list [] [] = true
same_list (x ∷ xs) (y ∷ ys) = eqb_ℤ x y && same_list xs ys
same_list _ _ = false

module _ (K : Kernel) where
  -- The assertions on a list of descriptors: in order, with some of them in it and others not.
  unfoldable check_fds : List ℤ → List ℤ → List ℤ → Action (Process K) (Unit {0})
  unfolding check_sorted check_that
  check_fds fds present absent = do
    check_that (check_sorted fds)
    check_that (contains_all fds present)
    check_that (contains_none fds absent)

  -- The files are closed as they go out of scope.
  unfoldable run_basic_test :
      Calls K → (ℤ → ℤ → ℤ → Action (Process K) (Unit {0})) → Action (Process K) (Unit {0})
  unfolding open_file check_that
  run_basic_test C callback = do
    fd1 ← open_file K C
    fd2 ← open_file K C
    fd3 ← open_file K C
    sys_call (K.close fd3)
    flags1 ← sys_read (K.getfd fd1)
    check_that (leb_ℤ (pos 0) flags1)
    flags2 ← sys_read (K.getfd fd2)
    check_that (leb_ℤ (pos 0) flags2)
    flags3 ← sys_read (K.getfd fd3)
    check_that (ltb_ℤ flags3 (pos 0))
    callback fd1 fd2 fd3
    sys_call (K.close fd2)
    sys_call (K.close fd1)

  -- The values of `fs` and `threadsafe` that a test loops over.
  abbrev each_case : (Bool → Bool → Action (Process K) (Unit {0})) → Action (Process K) (Unit {0})
  each_case test = test true true >> test true false >> test false true >> test false false

module _ (target : Target) (K : Kernel) (fuel : ℕ) where
  -- `builder.iter_from(minfd).collect()`
  unfoldable collect : FdIterBuilder → ℤ → Action (Process K) (List ℤ)
  unfolding FdIters.iter_from collected
  collect builder minfd = FdIters.iter_from target K minfd builder >>= collected target K fuel fuel

  -- `iter_open_fds_test`, and `iter_possible_fds_test` with `possible`, which may give the closed `fd3`.
  unfoldable iter_fds_test : Bool → ℤ → ℤ → ℤ → Action (Process K) (Unit {0})
  unfolding collect check_fds check_that FdIters.iter_from FdIter.min_fd FdIter.max_fd
      FdIters.possible FdIters.threadsafe FdIters.allow_filesystem
  iter_fds_test possible fd1 fd2 fd3 = each_case K (λ fs threadsafe.
      let builder =
        FdIters.possible possible
          (FdIters.threadsafe target threadsafe (FdIters.allow_filesystem target fs FdIters.new)) in
      let third : List ℤ = if possible then [] else fd3 ∷ [] in
      do
        fds ← collect builder (negsuc 0)
        check_fds K fds (pos 0 ∷ fd1 ∷ fd2 ∷ []) (negsuc 0 ∷ third)
        least ← (FdIters.iter_from target K (negsuc 0) builder >>= FdIter.min_fd target K fuel)
        check_that (same_option least (some (pos 0)))
        greatest ← (FdIters.iter_from target K (negsuc 0) builder >>= FdIter.max_fd target K fuel)
        check_that (same_option greatest (last? fds))
        counted ← collect builder (negsuc 0)
        check_that (length counted == length fds)
        fds ← collect builder (pos 0)
        check_fds K fds (pos 0 ∷ fd1 ∷ fd2 ∷ []) third
        fds ← collect builder fd1
        check_fds K fds (fd1 ∷ fd2 ∷ []) (pos 0 ∷ third)
        fds ← collect builder fd2
        check_fds K fds (fd2 ∷ []) (pos 0 ∷ fd1 ∷ third)
        fds ← collect builder fd3
        check_fds K fds [] (pos 0 ∷ fd1 ∷ fd2 ∷ third))

  -- `close_fds_test` and the three `close_fds_keep…_test`: with a list to keep, the descriptors that are to
  -- stay and those that are not.
  unfoldable close_fds_test :
      (CloseFdsBuilder → CloseFdsBuilder)
      → List ℤ
      → List ℤ
      → CloseFdsBuilder
      → ℤ
      → ℤ
      → ℤ
      → Action (Process K) (Unit {0})
  unfolding collect check_fds Builder.closefrom
  close_fds_test keep present absent builder fd1 fd2 fd3 = do
    fds ← collect FdIters.new fd1
    check_fds K fds (fd1 ∷ fd2 ∷ []) (fd3 ∷ [])
    Builder.closefrom target K fuel fd1 (keep builder)
    fds ← collect FdIters.new fd1
    check_fds K fds present absent

  -- The calls of `run_basic_test` in `run_tests`.
  unfoldable pub basic_tests : Calls K → CloseFdsBuilder → Action (Process K) (Unit {0})
  unfolding run_basic_test iter_fds_test close_fds_test Builder.keep_fds Builder.keep_fds_sorted
  basic_tests C builder = do
    run_basic_test K C (iter_fds_test false)
    run_basic_test K C (iter_fds_test true)
    run_basic_test K C (λ fd1 fd2 fd3.
        close_fds_test (Builder.keep_fds (pos 0 ∷ [])) [] (fd1 ∷ fd2 ∷ fd3 ∷ []) builder fd1 fd2
          fd3)
    run_basic_test K C (λ fd1 fd2 fd3.
        close_fds_test (Builder.keep_fds (fd1 ∷ fd3 ∷ [])) (fd1 ∷ []) (fd2 ∷ fd3 ∷ []) builder fd1
          fd2 fd3)
    run_basic_test K C (λ fd1 fd2 fd3.
        close_fds_test (Builder.keep_fds (fd2 ∷ fd3 ∷ [])) (fd2 ∷ []) (fd1 ∷ fd3 ∷ []) builder fd1
          fd2 fd3)
    run_basic_test K C (λ fd1 fd2 fd3.
        close_fds_test (Builder.keep_fds_sorted (fd2 ∷ [])) (fd2 ∷ []) (fd1 ∷ fd3 ∷ []) builder fd1
          fd2 fd3)

  -- One of the steps at the end of `run_tests`.
  abbrev closes_rest : ℤ → List ℤ → Action (Process K) (Unit {0})
  closes_rest minfd keep_fds = do
    Builder.close_open_fds target K fuel minfd keep_fds
    fds ← collect FdIters.new (pos 0)
    check_that (same_list fds (pos 0 ∷ pos 1 ∷ pos 2 ∷ []))

  unfoldable pub last_tests : Action (Process K) (Unit {0})
  unfolding collect check_that Builder.close_open_fds
  last_tests = do
    closes_rest (pos 3) []
    closes_rest (pos 0) (pos 0 ∷ pos 1 ∷ pos 2 ∷ [])
    closes_rest (negsuc 0) (pos 0 ∷ pos 1 ∷ pos 2 ∷ [])

  -- What the child does with its iterator once a file is open: the exit code.
  unfoldable fused_child : FdIter → Action (Process K) ℕ
  unfolding FdIter.next FdIter.size_hint FdIter.drop_fd_iter FdIters.iter_open_fds collected
  fused_child fditer = do
    other ← FdIters.iter_open_fds target K (pos 0)
    (first, other') ← FdIter.next target K fuel other
    FdIter.drop_fd_iter target K other'
    if not (same_option first (some (pos 0))) then pure 3 else do
      (fd, fditer') ← FdIter.next target K fuel fditer
      if not (is_none fd) then pure 4 else elim (FdIter.size_hint target K fuel fditer') [
        | none ↦ (λ p. none)
        | some (low, high) ↦ if not (low == 0 && (high == 0)) then pure 5 else do
          rest ← collected target K fuel fuel fditer'
          pure (if not (length rest == 0) then 6 else 0)
      ]

  -- The child of `run_no_fds_tests`: its exit code. `_exit` runs no destructors.
  unfoldable pub no_fds_child : (K.World → ℤ × K.World) → Action (Process K) ℕ
  unfolding fused_child FdIter.next FdIters.iter_open_fds Builder.close_open_fds
  no_fds_child open_root = do
    Builder.close_open_fds target K fuel (pos 0) []
    fditer ← FdIters.iter_open_fds target K (pos 0)
    (fd, fditer') ← FdIter.next target K fuel fditer
    if not (is_none fd) then pure 1 else do
      opened ← sys_result open_root
      if ltb_ℤ opened (pos 0) then pure 2 else fused_child fditer'
