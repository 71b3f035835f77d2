-- ===== src/IterFds/Tests/Passing.antt =====
-- The generic test of `size_hint` of src/iterfds/mod.rs, on the iterator of any builder.
use close_fds.Base.{
  ℕ, suc, ◌+◌, ◌≤◌, ◌≡◌, sym, List, leb, arith, ℤ, ◌>>=◌, Returns, Returns-bind, Returns-mono,
  Returns-both, Returns-IfReturns, Returns-value, length, IsInt,
}
use mathlib.Core.Path.{subst}
use close_fds.Target.{Target}
use close_fds.Kernel.{Kernel}
use close_fds.Kernel.Laws.{IsTable}
use close_fds.Process.{Process, check_that-true}
use close_fds.IterFds.DirFd.Laws.{IsDirectory, Opens}
use close_fds.IterFds.FdIter.{FdIter}
use close_fds.IterFds.FdIter.Limits.{IsBounded}
use close_fds.IterFds.Contract.{IsIterator}
use close_fds.IterFds.Builder
use close_fds.IterFds.Builder.{FdIterBuilder}
use close_fds.IterFds.Clamped.{I, iter_from-IsNew}
use close_fds.IterFds.Collected.{collected, Collects, collected-Collects}
use close_fds.IterFds.Collected.Whole.{Collects-AreAll}
use close_fds.IterFds.Tests.{hint_of-some, hint_loop, test_size_hint_generic}
use close_fds.IterFds.Tests.Hints.{Encloses, Good-Enclosed}
use close_fds.IterFds.Tests.Loop.{Passes, hint_loop-Passes}

module _ (target : Target) (K : Kernel) (T : IsTable K) (limit : ℤ) (top : ℕ)
    (L : IsBounded target K limit top) (entries : ℕ) (D : IsDirectory K entries) (fuel : ℕ)
    (enough : entries + suc top ≤ fuel) where
  abbrev J : IsIterator target K limit (suc fuel)
  J = I target K T limit top L entries D fuel enough

  -- What holds of the process after `collect` holds of that after the test.
  listed-passes :
      (it : FdIter) (p q : Process K) (fds : List ℤ) (P : Process K → Type 0)
      → Passes target K T limit top L entries D fuel enough (suc fuel) it p fds q
      → Encloses target K fuel it (length fds)
      → P q
      → Returns (test_size_hint_generic target K (suc fuel) it p) (λ _ u. P u)
  unfolding test_size_hint_generic
  listed-passes it p q fds P passes (lo, hi, hint, least, most) holds =
      rw
        (
          hint_of-some target K (suc fuel) it p (lo, hi) hint,
          check_that-true (leb lo hi) p (ground arith),
        )
        (Returns-mono _ _ (hint_loop target K (suc fuel) (suc fuel) 0 (lo, hi) it p)
          (passes 0 lo hi (omega arith) (omega arith)) (λ _ u same. subst P (sym same) holds))

  pub test_size_hint_generic-Collects :
      (it : FdIter) (p : Process K) (P : Process K → Type 0)
      → J.Good (suc fuel) it p.world
      → ((fds : List ℤ) (q : Process K)
          → Collects target K T limit (suc fuel) J it p.world fds q.world
          → P q)
      → Returns (test_size_hint_generic target K (suc fuel) it p) (λ _ u. P u)
  test_size_hint_generic-Collects it p P good holds =
      let all = collected target K (suc fuel) (suc fuel) it p in
      let (fds, q, ((passes, encloses), collects)) = Returns-value _ all (
        Returns-both _ _ all
          (Returns-both _ _ all
            (hint_loop-Passes target K T limit top L entries D fuel enough (suc fuel) it p good)
            (Returns-IfReturns _ all
              (Good-Enclosed target K T limit top L entries D fuel enough (suc fuel) it p good)))
          (Returns-IfReturns _ all
            (collected-Collects target K T limit (suc fuel) J (suc fuel) it p good))) in
      listed-passes it p q fds P passes encloses (holds fds q collects)

  -- Over a kernel and a directory that keep their promises, also on how large a descriptor may be,
  -- on every system, with fuel for the directory's entries and for more rounds than the largest
  -- number `top` that a descriptor may have, and for a `minfd` that is any `c_int`,
  -- `test_size_hint_generic` ends for the iterator of any builder and no assertion in it fails: each
  -- answer of `size_hint`, at the start and after each descriptor, has a lower bound that is not above
  -- its upper bound, the number of descriptors lies within all of them, and at the end the lower
  -- bound is 0. Every descriptor is left as it was, that of the directory too.
  pub test_size_hint_generic-passes :
      (m : ℤ) (builder : FdIterBuilder) (p : Process K)
      → Opens K target entries D
      → IsInt m
      → Returns
          ((Builder.iter_from target K m builder >>= test_size_hint_generic target K (suc fuel)) p)
          (λ _ q. (j : ℤ) → IsInt j → K.getfd j q.world ≡ K.getfd j p.world)
  test_size_hint_generic-passes m builder p opens int =
      Returns-bind _ _ (Builder.iter_from target K m builder p) _
        (iter_from-IsNew target K T limit top L entries D fuel enough m p builder opens int)
        (λ it q (good, at, opened).
          test_size_hint_generic-Collects it q
            (λ u. (j : ℤ) → IsInt j → K.getfd j u.world ≡ K.getfd j p.world) good
            (λ fds u collects.
              (Collects-AreAll target K T limit (suc fuel) J it p.world q.world fds u.world opened
                collects).2))
