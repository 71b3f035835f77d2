-- ===== src/IterFds/Tests/Loop.antt =====
-- The loop of `test_size_hint_generic` of src/iterfds/mod.rs, next to that of `collect`.
use close_fds.Base.{
  ℕ, zero, suc, ◌+◌, ◌≤◌, ◌≡◌, refl, Option, none, some, List, [], ◌∷◌, leb, arith, ℤ, Action, pure,
  bind, ◌>>=◌, ◌>>◌, Returns, Returns-bind, Returns-mono, Returns-both, Returns-IfReturns, length,
}
use close_fds.Target.{Target}
use close_fds.Kernel.{Kernel}
use close_fds.Kernel.Laws.{IsTable}
use close_fds.Process.{Process, check_that, check_that-true}
use close_fds.IterFds.DirFd.Laws.{IsDirectory}
use close_fds.IterFds.FdIter
use close_fds.IterFds.FdIter.{FdIter}
use close_fds.IterFds.FdIter.Limits.{IsBounded}
use close_fds.IterFds.Contract.{Handed, Yields, IsIterator}
use close_fds.IterFds.Steps.{drop_fd_iter-ChangesExactly}
use close_fds.IterFds.Clamped.{I}
use close_fds.IterFds.Collected.{collected}
use close_fds.IterFds.Tests.{hint_of, hint_of-some, tighten, hint_end, hint_loop}
use close_fds.IterFds.Tests.Hints.{Encloses, HintsEnd, Good-Enclosed, next-HintsEnd}

module _ (target : Target) (K : Kernel) (T : IsTable K) (limit : ℤ) (top : ℕ)
    (L : IsBounded target K limit top) (entries : ℕ) (D : IsDirectory K entries) (fuel : ℕ)
    (enough : entries + suc top ≤ fuel) where
  abbrev pub J : IsIterator target K limit (suc fuel)
  J = I target K T limit top L entries D fuel enough

  -- With bounds that enclose the number of descriptors in all, the rest of the test passes, and leaves
  -- the process as `collect` does.
  abbrev pub Passes : ℕ → FdIter → Process K → List ℤ → Process K → Type 0
  Passes rounds it p fds q =
      (i low high : ℕ)
      → low ≤ i + length fds
      → i + length fds ≤ high
      → Returns (hint_loop target K rounds (suc fuel) i (low, high) it p) (λ _ u. u ≡ q)

  abbrev EndPasses : FdIter → Process K → List ℤ → Process K → Type 0
  EndPasses it p fds q =
      (i low high : ℕ)
      → low ≤ i + length fds
      → i + length fds ≤ high
      → Returns (hint_end target K (suc fuel) i (low, high) it p) (λ _ u. u ≡ q)

  hint_end-passes :
      (it : FdIter) (p : Process K)
      → HintsEnd target K fuel (none, it)
      → Returns ((FdIter.drop_fd_iter target K it >> pure []) p) (EndPasses it p)
  unfolding hint_end
  hint_end-passes it p (hi, hint) =
      Returns-mono _ _ ((FdIter.drop_fd_iter target K it >> pure []) p)
        (dropped _ (FdIter.drop_fd_iter target K it p)
          (drop_fd_iter-ChangesExactly target K T limit it p))
        (λ fds q (empty, same) i low high least most.
          checked i low high q (omega (arith, empty)) (omega (arith, empty)) same)
    where
      checked :
          (i low high : ℕ) (q : Process K)
          → low ≤ i
          → i ≤ high
          → Returns (FdIter.drop_fd_iter target K it p) (λ _ u. u ≡ q)
          → Returns (hint_end target K (suc fuel) i (low, high) it p) (λ _ u. u ≡ q)
      checked i low high q least most h =
          rw
            (
              hint_of-some target K (suc fuel) it p (0, hi) hint,
              check_that-true (leb low i) p (ground arith),
              check_that-true (leb i high) p (ground arith),
            )
            h

      dropped :
          (P : Unit {0} → Process K → Type 0)
          → (o : Option (Unit {0} × Process K)) → Returns o P
          → Returns
              (bind o (λ _. pure []))
              (λ fds q. (length {A = ℤ} fds ≡ 0) × Returns o (λ _ u. u ≡ q))
      dropped P none h = absurd h
      dropped P (some (_, q)) h = (refl, refl)

  -- What a round of the loop does with the answer of `next`.
  abbrev loop_rest : ℕ → ℕ → ℕ × ℕ → Option ℤ × FdIter → Action (Process K) (Unit {0})
  loop_rest rounds i init (fd, it') = elim fd [
    | none ↦ hint_end target K (suc fuel) i init it'
    | some _ ↦ do
      (cur_low, cur_high) ← hint_of target K (suc fuel) it'
      check_that (leb cur_low cur_high)
      hint_loop target K rounds (suc fuel) (i + 1) (tighten i (cur_low, cur_high) init) it'
  ]

  one_more :
      (rounds : ℕ) (it' : FdIter) (q u : Process K) (fds : List ℤ)
      → Passes rounds it' q fds u
      → Encloses target K fuel it' (length fds)
      → (fd : ℤ) (i low high : ℕ) → low ≤ i + suc (length fds)
      → i + suc (length fds) ≤ high
      → Returns (loop_rest rounds i (low, high) (some fd, it') q) (λ _ v. v ≡ u)
  unfolding tighten
  one_more rounds it' q u fds passes (lo, hi, hint, least, most) fd i low high from upto =
      rw
        (
          hint_of-some target K (suc fuel) it' q (lo, hi) hint,
          check_that-true (leb lo hi) q (ground arith),
        )
        (passes (i + 1) (tighten i (lo, hi) (low, high)).0 (tighten i (lo, hi) (low, high)).1
          (ground arith) (ground arith))

  pub hint_loop-Passes :
      (rounds : ℕ) (it : FdIter) (p : Process K)
      → J.Good rounds it p.world
      → Returns (collected target K rounds (suc fuel) it p) (Passes rounds it p)
  unfolding collected hint_loop
  hint_loop-Passes zero it p good = absurd (omega (arith, J.rounds_lem 0 it p.world good))
  hint_loop-Passes (suc rounds) it p good =
      after (hint_loop-Passes rounds) (FdIter.next target K (suc fuel) it p) (
        Returns-both _ _ (FdIter.next target K (suc fuel) it p) (J.next_lem rounds it p good)
          (next-HintsEnd target K T limit top L entries D fuel enough (suc rounds) it p good))
    where
      counted :
          ((it' : FdIter) (q : Process K)
            → J.Good rounds it' q.world
            → Returns (collected target K rounds (suc fuel) it' q) (Passes rounds it' q))
          → (it' : FdIter) (q : Process K) → J.Good rounds it' q.world
          → Returns
              (collected target K rounds (suc fuel) it' q)
              (λ fds u. Passes rounds it' q fds u × Encloses target K fuel it' (length fds))
      counted ih it' q good' =
          Returns-both _ _ (collected target K rounds (suc fuel) it' q) (ih it' q good') (
            Returns-IfReturns _ (collected target K rounds (suc fuel) it' q)
              (Good-Enclosed target K T limit top L entries D fuel enough rounds it' q good'))

      after :
          ((it' : FdIter) (q : Process K)
            → J.Good rounds it' q.world
            → Returns (collected target K rounds (suc fuel) it' q) (Passes rounds it' q))
          → (o : Option ((Option ℤ × FdIter) × Process K))
          → Returns o (λ a q.
            (Handed target K limit it a.1 p.world q.world
              × Yields target K limit J.Good rounds it p.world a.0 a.1 q.world)
            × HintsEnd target K fuel a)
          → Returns
              (bind o (λ a. elim a.0 as (λ _. Action (Process K) (List ℤ)) [
                | none ↦ FdIter.drop_fd_iter target K a.1 >> pure []
                | some fd ↦ (collected target K rounds (suc fuel) a.1 >>= λ fds. pure (fd ∷ fds))
              ]))
              (λ fds u.
                (i low high : ℕ)
                → low ≤ i + length fds
                → i + length fds ≤ high
                → Returns (bind o (loop_rest rounds i (low, high))) (λ _ v. v ≡ u))
      after ih none h = absurd h
      after ih (some ((none, it'), q)) (yields, hints) = hint_end-passes it' q hints
      after ih (some ((some fd, it'), q)) ((handed, yields), hints) =
          Returns-bind _ _ (collected target K rounds (suc fuel) it' q) _
            (counted ih it' q yields.5)
            (λ fds u (passes, encloses). one_more rounds it' q u fds passes encloses fd)
