-- ===== src/IterFds/Tests/Fused.antt =====
-- About `test_fused_generic` of src/iterfds/mod.rs, on the iterator of any builder.
use close_fds.Base.{
  ℕ, zero, suc, ◌+◌, ◌≤◌, ◌≡◌, refl, sym, true, Option, none, some, List, [], ◌∷◌, ℤ, Action, pure,
  bind, ◌>>=◌, ◌>>◌, Returns, Returns-bind, Returns-mono, Returns-both, Returns-IfReturns,
  Returns-value, IsInt,
}
use mathlib.Core.Path.{subst}
use close_fds.Target.{Target}
use close_fds.Kernel.{Kernel}
use close_fds.Kernel.Laws.{IsTable}
use close_fds.Process.{Process, check_that, check_that-true}
use close_fds.IterFds.DirFd.Laws.{IsDirectory, Opens}
use close_fds.IterFds.FdIter
use close_fds.IterFds.FdIter.{FdIter}
use close_fds.IterFds.FdIter.Fused.{next-fused}
use close_fds.IterFds.FdIter.Limits.{IsBounded}
use close_fds.IterFds.Contract.{IsIterator}
use close_fds.IterFds.Steps.{drop_fd_iter-ChangesExactly}
use close_fds.IterFds.Builder
use close_fds.IterFds.Builder.{FdIterBuilder}
use close_fds.IterFds.Clamped.{I, iter_from-IsNew}
use close_fds.IterFds.Collected.{collected, Collects, collected-Collects}
use close_fds.IterFds.Collected.Whole.{Collects-AreAll}
use close_fds.IterFds.Tests.{is_none, exhausted, test_fused_generic}

module _ (target : Target) (K : Kernel) (T : IsTable K) (limit : ℤ) (fuel : ℕ) where
  -- What follows the calls of `next` up to the end.
  abbrev fused_end : FdIter → Action (Process K) (Unit {0})
  fused_end it' = do
    (fd, it'') ← FdIter.next target K (suc fuel) it'
    check_that (is_none fd)
    FdIter.drop_fd_iter target K it''

  -- At the end the iterator gives nothing more, and the process is as after `collect`.
  fused_end-passes :
      (it' : FdIter) (q : Process K)
      → FdIter.next target K (suc fuel) it' q ≡ some ((none, it'), q)
      → Returns
          ((FdIter.drop_fd_iter target K it' >> pure {A = List ℤ} []) q)
          (λ _ u. Returns (fused_end it' q) (λ _ v. v ≡ u))
  fused_end-passes it' q still =
      rw (still, check_that-true true q refl)
        (dropped _ (FdIter.drop_fd_iter target K it' q)
          (drop_fd_iter-ChangesExactly target K T limit it' q))
    where
      dropped :
          (P : Unit {0} → Process K → Type 0) (o : Option (Unit {0} × Process K))
          → Returns o P
          → Returns (bind o (λ _. pure {A = List ℤ} [])) (λ _ u. Returns o (λ _ v. v ≡ u))
      dropped P none h = absurd h
      dropped P (some (_, q')) h = refl

  -- The calls of `next` up to the end, next to those of `collect`.
  exhausted-passes :
      (rounds : ℕ) (it : FdIter) (p : Process K)
      → Returns (collected target K rounds (suc fuel) it p) (λ _ u. Unit {0})
      → Returns (collected target K rounds (suc fuel) it p) (λ _ u.
        Returns ((exhausted target K rounds (suc fuel) it >>= fused_end) p) (λ _ v. v ≡ u))
  unfolding collected exhausted
  exhausted-passes zero it p ends = absurd ends
  exhausted-passes (suc rounds) it p ends =
      after (exhausted-passes rounds) (FdIter.next target K (suc fuel) it p) refl ends
    where
      inner :
          (fd : ℤ) (o : Option (List ℤ × Process K))
          → Returns (bind o (λ fds. pure (fd ∷ fds))) (λ _ u. Unit {0})
          → Returns o (λ _ u. Unit {0})
      inner fd none h = absurd h
      inner fd (some (fds, q)) h = h

      after :
          ((it' : FdIter) (q : Process K)
            → Returns (collected target K rounds (suc fuel) it' q) (λ _ u. Unit {0})
            → Returns (collected target K rounds (suc fuel) it' q) (λ _ u.
              Returns ((exhausted target K rounds (suc fuel) it' >>= fused_end) q) (λ _ v. v ≡ u)))
          → (o : Option ((Option ℤ × FdIter) × Process K))
          → FdIter.next target K (suc fuel) it p ≡ o
          → Returns
              (bind o (λ a. elim a.0 as (λ _. Action (Process K) (List ℤ)) [
                | none ↦ FdIter.drop_fd_iter target K a.1 >> pure []
                | some fd ↦ (collected target K rounds (suc fuel) a.1 >>= λ fds. pure (fd ∷ fds))
              ]))
              (λ _ u. Unit {0})
          → Returns
              (bind o (λ a. elim a.0 as (λ _. Action (Process K) (List ℤ)) [
                | none ↦ FdIter.drop_fd_iter target K a.1 >> pure []
                | some fd ↦ (collected target K rounds (suc fuel) a.1 >>= λ fds. pure (fd ∷ fds))
              ]))
              (λ _ u.
                Returns
                  (bind
                    (bind o (λ a. elim a.0 as (λ _. Action (Process K) FdIter) [
                      | none ↦ pure a.1
                      | some _ ↦ exhausted target K rounds (suc fuel) a.1
                    ]))
                    fused_end)
                  (λ _ v. v ≡ u))
      after ih none e h = absurd h
      after ih (some ((none, it'), q)) e h =
          fused_end-passes it' q (next-fused target K (suc fuel) it it' p q e fuel q)
      after ih (some ((some fd, it'), q)) e h =
          Returns-bind _ _ (collected target K rounds (suc fuel) it' q) _
            (ih it' q (inner fd (collected target K rounds (suc fuel) it' q) h))
            (λ fds u passes. passes)

module _ (target : Target) (K : Kernel) (T : IsTable K) (limit : ℤ) (top : ℕ)
    (L : IsBounded target K limit top) (entries : ℕ) (D : IsDirectory K entries) (fuel : ℕ)
    (enough : entries + suc top ≤ fuel) where
  abbrev J : IsIterator target K limit (suc fuel)
  J = I target K T limit top L entries D fuel enough

  -- What holds of the process after `collect` holds of that after the test.
  test_fused_generic-Collects :
      (it : FdIter) (p : Process K) (P : Process K → Type 0)
      → J.Good (suc fuel) it p.world
      → ((fds : List ℤ) (q : Process K)
          → Collects target K T limit (suc fuel) J it p.world fds q.world
          → P q)
      → Returns (test_fused_generic target K (suc fuel) it p) (λ _ u. P u)
  unfolding test_fused_generic
  test_fused_generic-Collects it p P good holds =
      let all = collected target K (suc fuel) (suc fuel) it p in
      let collects = collected-Collects target K T limit (suc fuel) J (suc fuel) it p good in
      let (fds, q, (found, passes)) = Returns-value _ all (
        Returns-both _ _ all collects (
          Returns-IfReturns _ all (
            exhausted-passes target K T limit fuel (suc fuel) it p
              (Returns-mono _ _ all collects (λ _ _ _. tt))))) in
      Returns-mono _ _
        ((exhausted target K (suc fuel) (suc fuel) it >>= fused_end target K T limit fuel) p) passes
        (λ _ u same. subst P (sym same) (holds fds q found))

  -- Over a kernel and a directory that keep their promises, also on how large a descriptor may be,
  -- on every system, with fuel for the directory's entries and for more rounds than the largest
  -- number `top` that a descriptor may have, and for a `minfd` that is any `c_int`,
  -- `test_fused_generic` ends for the iterator of any builder and its assertion does not fail: the
  -- iterator comes to an end, and `next` then gives no descriptor again. Every descriptor is left as
  -- it was, that of the directory too.
  pub test_fused_generic-passes :
      (m : ℤ) (builder : FdIterBuilder) (p : Process K)
      → Opens K target entries D
      → IsInt m
      → Returns
          ((Builder.iter_from target K m builder >>= test_fused_generic target K (suc fuel)) p)
          (λ _ q. (j : ℤ) → IsInt j → K.getfd j q.world ≡ K.getfd j p.world)
  test_fused_generic-passes m builder p opens int =
      Returns-bind _ _ (Builder.iter_from target K m builder p) _
        (iter_from-IsNew target K T limit top L entries D fuel enough m p builder opens int)
        (λ it q (good, at, opened).
          test_fused_generic-Collects it q
            (λ u. (j : ℤ) → IsInt j → K.getfd j u.world ≡ K.getfd j p.world) good
            (λ fds u collects.
              (Collects-AreAll target K T limit (suc fuel) J it p.world q.world fds u.world opened
                collects).2))
