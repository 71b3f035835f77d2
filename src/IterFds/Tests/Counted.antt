-- ===== src/IterFds/Tests/Counted.antt =====
-- How many descriptors there are in what an iterator gives: bounds from each of the ways to give them.
use close_fds.Base.{
  ℕ, ◌⊎◌, zero, suc, ◌+◌, ◌≤◌, ◌<◌, ◌≡◌, refl, ◌∙◌, ap, inl, inr, Option, none, some, List, [], ◌∷◌,
  arith, ℤ, pos, ◌≤ℤ◌, ◌+ℤ◌, +ℤ_parts, one_part, int_max, pos_part, wrap_int, Action, pure, bind,
  ◌>>=◌, ◌>>◌, Returns, Returns-bind, IfReturns, IfReturns-bind, length,
}
use close_fds.Target.{Target}
use close_fds.Kernel.{Kernel}
use close_fds.Kernel.Laws.{IsTable}
use close_fds.Process.{Process}
use close_fds.IterFds.DirFd.{DirFdIter}
use close_fds.IterFds.DirFd.Gives.{Gives}
use close_fds.IterFds.FdIter
use close_fds.IterFds.FdIter.{FdIter}
use close_fds.IterFds.FdIter.Given.{given}
use close_fds.IterFds.FdIter.Fused.{answer, next_read}
use close_fds.IterFds.Steps.{drop_fd_iter-ChangesExactly}
use close_fds.IterFds.Collected.{Climbs, collected}

-- Descriptors that climb from 0 on are fewer than there are numbers below the largest `c_int`.
pub Climbs-length :
    (a : ℤ) (fds : List ℤ) → pos 0 ≤ℤ a → Climbs a fds → length fds ≤ pos_part int_max
Climbs-length a fds low climbs = omega (arith, room a fds low climbs)
  where
    room :
        (a : ℤ) (fds : List ℤ)
        → pos 0 ≤ℤ a
        → Climbs a fds
        → (length fds ≡ 0) ⊎ (length fds + pos_part a ≤ pos_part int_max)
    room a [] low climbs = inl refl
    room a (x ∷ xs) low (from, below, climbs) =
        let next = room (x +ℤ pos 1) xs (omega (arith, +ℤ_parts x (pos 1))) climbs in
        inr (omega (arith, next, one_part a, one_part x, one_part (x +ℤ pos 1), +ℤ_parts x (pos 1)))

module _ (target : Target) (K : Kernel) (T : IsTable K) (limit : ℤ) where
  -- What holds of the number that calls of `next` give holds of the list that they give.
  pub given-collected :
      (rounds fuel : ℕ) (it : FdIter) (p : Process K) (P : ℕ → Type 0)
      → Returns (given target K rounds fuel it p) (λ n q. P n)
      → Returns (collected target K rounds fuel it p) (λ fds q. P (length fds))
  unfolding given collected
  given-collected zero fuel it p P h = absurd h
  given-collected (suc rounds) fuel it p P h =
      after (given-collected rounds fuel) (FdIter.next target K fuel it p) h
    where
      inner :
          (o : Option (ℕ × Process K))
          → Returns (bind o (λ n. pure (suc n))) (λ n q. P n)
          → Returns o (λ n q. P (suc n))
      inner none h = absurd h
      inner (some (n, q)) h = h

      after :
          ((it' : FdIter) (q : Process K) (Q : ℕ → Type 0)
            → Returns (given target K rounds fuel it' q) (λ n u. Q n)
            → Returns (collected target K rounds fuel it' q) (λ fds u. Q (length fds)))
          → (o : Option ((Option ℤ × FdIter) × Process K))
          → Returns
              (bind o (λ a. elim a.0 as (λ _. Action (Process K) ℕ) [
                | none ↦ pure 0
                | some _ ↦ (given target K rounds fuel a.1 >>= λ n. pure (suc n))
              ]))
              (λ n q. P n)
          → Returns
              (bind o (λ a. elim a.0 as (λ _. Action (Process K) (List ℤ)) [
                | none ↦ FdIter.drop_fd_iter target K a.1 >> pure []
                | some fd ↦ (collected target K rounds fuel a.1 >>= λ fds. pure (fd ∷ fds))
              ]))
              (λ fds q. P (length fds))
      after ih none h = absurd h
      after ih (some ((none, it'), q)) h =
          Returns-bind _ _ (FdIter.drop_fd_iter target K it' q) _
            (drop_fd_iter-ChangesExactly target K T limit it' q) (λ _ u drop. h)
      after ih (some ((some fd, it'), q)) h =
          Returns-bind _ _ (collected target K rounds fuel it' q) _
            (ih it' q (λ n. P (suc n)) (inner (given target K rounds fuel it' q) h))
            (λ fds u most. most)

  -- What the directory's iterator gives from its buffer is in the list.
  pub Gives-collected :
      (bound n rounds fuel : ℕ) (it : FdIter) (d : DirFdIter) (p : Process K)
      → bound < fuel
      → it.dirfd_iter ≡ some d
      → Gives K bound n d p
      → IfReturns (collected target K rounds fuel it p) (λ fds q. n ≤ length fds)
  unfolding collected
  Gives-collected bound zero rounds fuel it d p lt reads gives =
      always (collected target K rounds fuel it p)
    where
      always : (o : Option (List ℤ × Process K)) → IfReturns o (λ fds q. 0 ≤ length fds)
      always none = tt
      always (some (fds, q)) = omega arith
  Gives-collected bound (suc n) zero fuel it d p lt reads gives = tt
  Gives-collected bound (suc n) (suc rounds) fuel it d p lt reads (fd, d', given, rest) =
      let it' : FdIter = record it { dirfd_iter = some d'; curfd = wrap_int (fd +ℤ pos 1) } in
      let next : FdIter.next target K fuel it p ≡ some ((some fd, it'), p) =
        next_read target K fuel it d p reads
        ∙ ap (λ o. bind o (answer target K fuel it)) (given fuel lt) in
      rw next (
        IfReturns-bind _ _ (collected target K rounds fuel it' p) _
          (Gives-collected bound n rounds fuel it' d' p lt refl rest)
          (λ fds u most. omega (arith, most)))
