-- ===== src/IterFds/Tests/Whole.antt =====
-- About the four tests of src/iterfds/mod.rs that open files in between.
use close_fds.Base.{ℕ, suc, ◌+◌, ◌≤◌, true, arith, ℤ, pos, Returns, ◌>>=◌}
use close_fds.Target.{Target}
use close_fds.Kernel.{Kernel}
use close_fds.Kernel.Laws.{IsTable}
use close_fds.Kernel.Opening.{SameTable, IsOpening}
use close_fds.Process.{Process}
use close_fds.IterFds.DirFd.Laws.{IsDirectory, Opens}
use close_fds.IterFds.FdIter.Limits.{IsBounded}
use close_fds.IterFds.Builder
use close_fds.IterFds.Builder.{FdIterBuilder}
use close_fds.IterFds.Tests.{test_size_hint_generic, test_fused_generic}
use close_fds.IterFds.Tests.Passing.{test_size_hint_generic-passes}
use close_fds.IterFds.Tests.Fused.{test_fused_generic-passes}
use close_fds.IterFds.Tests.Files.{
  test_size_hint_open, test_size_hint_possible, test_fused_open, test_fused_possible,
}
use close_fds.IterFds.Tests.Files.Around.{test_around-SameTable}

module _ (target : Target) (K : Kernel) (T : IsTable K) (limit : ℤ) (top : ℕ)
    (L : IsBounded target K limit top) (entries : ℕ) (D : IsDirectory K entries)
    (opens : Opens K target entries D) (fuel : ℕ) (enough : entries + suc top ≤ fuel)
    (open_root : K.World → ℤ × K.World) (O : IsOpening K open_root) (p : Process K)
    (room : O.Room 10 p.world) where
  hints :
      (builder : FdIterBuilder) (q : Process K)
      → Returns
          ((Builder.iter_from target K (pos 0) builder
              >>= test_size_hint_generic target K (suc fuel))
            q)
          (λ _ r. SameTable K q.world r.world)
  hints builder q =
      test_size_hint_generic-passes target K T limit top L entries D fuel enough (pos 0) builder q
        opens (omega arith)

  fused :
      (builder : FdIterBuilder) (q : Process K)
      → Returns
          ((Builder.iter_from target K (pos 0) builder >>= test_fused_generic target K (suc fuel))
            q)
          (λ _ r. SameTable K q.world r.world)
  fused builder q =
      test_fused_generic-passes target K T limit top L entries D fuel enough (pos 0) builder q opens
        (omega arith)

  -- Over a kernel and a directory that keep their promises, also on how large a descriptor may be, on
  -- every system, with fuel for the directory's entries and for more rounds than the largest number
  -- `top` that a descriptor may have, and with room for ten files more, which `open` keeps to, each of
  -- `test_size_hint_open`, `test_size_hint_possible`, `test_fused_open` and `test_fused_possible` ends
  -- and none of their assertions fails; every descriptor is as before.
  pub tests-SameTable :
      Returns
        (test_size_hint_open target K open_root (suc fuel) p)
        (λ _ q. SameTable K p.world q.world)
      × Returns
          (test_size_hint_possible target K open_root (suc fuel) p)
          (λ _ q. SameTable K p.world q.world)
      × Returns
          (test_fused_open target K open_root (suc fuel) p)
          (λ _ q. SameTable K p.world q.world)
      × Returns
          (test_fused_possible target K open_root (suc fuel) p)
          (λ _ q. SameTable K p.world q.world)
  unfolding test_size_hint_open test_size_hint_possible test_fused_open test_fused_possible
  tests-SameTable =
      let hint_test = test_size_hint_generic target K (suc fuel) in
      let fused_test = test_fused_generic target K (suc fuel) in
      let possible = Builder.possible true Builder.new in
      (
        test_around-SameTable target K T open_root O hint_test hints (suc fuel) Builder.new p room,
        test_around-SameTable target K T open_root O hint_test hints (suc fuel) possible p room,
        test_around-SameTable target K T open_root O fused_test fused (suc fuel) Builder.new p room,
        test_around-SameTable target K T open_root O fused_test fused (suc fuel) possible p room,
      )
