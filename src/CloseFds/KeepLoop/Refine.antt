-- ===== src/CloseFds/KeepLoop/Refine.antt =====
-- The loop that closes, or marks, what it is asked to.
use close_fds.Base.{
  ℕ, zero, suc, ◌≤◌, ◌<◌, ◌≡◌, ap, inl, inr, Bool, true, false, not, Option, none, some, List,
  arith, ℤ, pos, ◌≤ℤ◌, ◌<ℤ◌, ◌+ℤ◌, +ℤ_parts, leb_ℤ, ltb_ℤ, Action, ◌>>◌, Returns, Returns-bind,
  Returns-mono, if◌then◌else◌, Bool-cases, pos_part, neg_part, contains, IsSorted,
}
use close_fds.Target.{Target}
use close_fds.Kernel.{Kernel}
use close_fds.Kernel.Laws.{IsTable}
use close_fds.Kernel.Effect.{IsEffect}
use close_fds.Process.{Process}
use close_fds.Util.{check_should_keep}
use close_fds.Util.Keep.{Checked, check_should_keep-Checked}
use close_fds.Util.Simplify.{is_target}
use close_fds.Util.Ranges.{IsFd}
use close_fds.IterFds.FdIter
use close_fds.IterFds.FdIter.{FdIter}
use close_fds.IterFds.Contract.{owned, Done, Begun-Done, Handed, Yields, IsIterator}
use close_fds.IterFds.Steps.{
  drop_fd_iter-ChangesExactly, Begun-change, Begun-keep, Begun-Passed, Done-drop,
}
use close_fds.IterFds.Loops.Each.{Acts}
use close_fds.CloseFds.KeepLoop.{loop_body, keep_loop}

-- What the loop knows of its slice: it is sorted if the flag says so, and the maximum bounds the part
-- of it that may still be met.
abbrev pub Slice : List ℤ → ℤ → Bool → ℤ → Type 0
Slice keep_fds max_keep_fd fds_sorted curfd =
    (fds_sorted ≡ true → IsSorted keep_fds)
    × ((j : ℤ) → curfd ≤ℤ j → contains keep_fds j ≡ true → j ≤ℤ max_keep_fd)

module _ (target : Target) (K : Kernel) (T : IsTable K) (limit : ℤ) (fuel : ℕ)
    (I : IsIterator target K limit fuel) (eff : ℤ → ℤ) (E : IsEffect eff) where
  -- What the work on the rest does: it has the effect on `fd` and all that the iterator would still give.
  abbrev pub Rests : (ℤ → FdIter → Action (Process K) (Unit {0})) → Type 0
  Rests rest =
      (it : FdIter) (p : Process K) (fd : ℤ)
      → I.Good fuel it p.world
      → IsFd fd
      → it.curfd ≡ fd +ℤ pos 1
      → owned it fd ≡ false
      → Returns (rest fd it p)
          (λ _ q. Done K eff limit (owned it) (λ j. leb_ℤ fd j) p.world q.world)

module _ (target : Target) (K : Kernel) (T : IsTable K) (limit : ℤ) (fuel : ℕ)
    (I : IsIterator target K limit fuel) (eff : ℤ → ℤ) (E : IsEffect eff)
    (act : ℤ → Action (Process K) (Unit {0})) (acts : Acts target K T limit fuel I eff E act)
    (rest : ℤ → FdIter → Action (Process K) (Unit {0}))
    (rests : Rests target K T limit fuel I eff E rest) (max_keep_fd : ℤ) (fds_sorted : Bool) where
  abbrev ChangesTargets : List ℤ → FdIter → Process K → Option (Unit {0} × Process K) → Type 0
  ChangesTargets keep_fds it p r =
      Returns r (λ _ q. Done K eff limit (owned it) (is_target it.curfd keep_fds) p.world q.world)

  abbrev Loop : (List ℤ → FdIter → Process K → Option (Unit {0} × Process K)) → ℕ → Type 0
  Loop continue rounds =
      (k : List ℤ) (i : FdIter) (s : Process K)
      → I.Good rounds i s.world
      → Slice k max_keep_fd fds_sorted i.curfd
      → ChangesTargets k i s (continue k i s)

  -- One descriptor that `next` gave, in the three arms of the body.
  module _ (rounds : ℕ) (continue : List ℤ → FdIter → Process K → Option (Unit {0} × Process K))
      (ih : Loop continue rounds) (keep_fds keep' : List ℤ) (it it' : FdIter) (p q : Process K)
      (fd : ℤ) (handed : Handed target K limit it it' p.world q.world)
      (yields : Yields target K limit I.Good rounds it p.world (some fd) it' q.world)
      (same : (j : ℤ) → fd ≤ℤ j → contains keep' j ≡ contains keep_fds j)
      (slice : Slice keep' max_keep_fd fds_sorted it'.curfd) where
    suc_next : (j : ℤ) → leb_ℤ it'.curfd j ≡ ltb_ℤ fd j
    suc_next j =
        let next = yields.2 in
        ground (arith, +ℤ_parts fd (pos 1), ap pos_part next, ap neg_part next)

    from : (j : ℤ) → is_target it.curfd keep_fds j ≡ true → it.curfd ≤ℤ j
    from j t = ground arith

    within : (j : ℤ) → is_target it'.curfd keep' j ≡ true → is_target it.curfd keep_fds j ≡ true
    within j t = let le = yields.0 in ground (arith, suc_next j, same j)

    later :
        (j : ℤ)
        → is_target it.curfd keep_fds j ≡ true
        → fd <ℤ j
        → is_target it'.curfd keep' j ≡ true
    later j t lt = ground (arith, suc_next j, same j)

    arm_change :
        contains keep_fds fd ≡ false
        → ChangesTargets keep_fds it p ((act fd >> continue keep' it') q)
    arm_change missing =
        let (le, isfd, next, foreign, passed, good) = yields in
        Returns-bind _ _ (act fd q) (λ _. continue keep' it')
          (acts rounds it' q fd good isfd foreign)
          (λ _ s (changed, good').
            Returns-mono _ _ (continue keep' it' s) (ih keep' it' s good' slice) (λ _ u d.
              Begun-Done K eff limit (owned it) (is_target it.curfd keep_fds) (owned it')
                (is_target it'.curfd keep') p.world s.world u.world E
                (Begun-change target K T limit eff E it it' (is_target it.curfd keep_fds)
                  (is_target it'.curfd keep') p.world q.world fd s.world handed passed
                  (ground (arith, missing)) from within later changed)
                d))

    arm_keep : contains keep_fds fd ≡ true → ChangesTargets keep_fds it p (continue keep' it' q)
    arm_keep present =
        let (le, isfd, next, foreign, passed, good) = yields in
        Returns-mono _ _ (continue keep' it' q) (ih keep' it' q good slice) (λ _ u d.
          Begun-Done K eff limit (owned it) (is_target it.curfd keep_fds) (owned it')
            (is_target it'.curfd keep') p.world q.world u.world E
            (Begun-keep target K T limit eff E it it' (is_target it.curfd keep_fds)
              (is_target it'.curfd keep') p.world q.world fd handed passed (ground (arith, present))
              from within later)
            d)

    arm_rest :
        ((j : ℤ) → fd ≤ℤ j → contains keep_fds j ≡ false)
        → rounds < fuel
        → ChangesTargets keep_fds it p (rest fd it' q)
    arm_rest above few =
        let (le, isfd, next, foreign, passed, good) = yields in
        Returns-mono _ _ (rest fd it' q)
          (rests it' q fd (I.more_lem rounds fuel it' q.world (omega arith) good) isfd next foreign)
          (λ _ u d.
            Begun-Done K eff limit (owned it) (is_target it.curfd keep_fds) (owned it')
              (λ j. leb_ℤ fd j) p.world q.world u.world E
              (Begun-Passed target K T limit eff E it it' (is_target it.curfd keep_fds)
                (λ j. leb_ℤ fd j) p.world q.world fd handed passed from
                (λ j t. ground (arith, above j)) (λ j t after. ground arith))
              d)

  -- The body with the answer of `check_should_keep` and the slice that it leaves.
  arms :
      (rounds : ℕ) (continue : List ℤ → FdIter → Process K → Option (Unit {0} × Process K))
      → Loop continue rounds
      → rounds < fuel
      → (keep_fds : List ℤ) (it it' : FdIter) (p q : Process K) (fd : ℤ)
      → Handed target K limit it it' p.world q.world
      → Yields target K limit I.Good rounds it p.world (some fd) it' q.world
      → Slice keep_fds max_keep_fd fds_sorted it.curfd
      → (r : Bool × List ℤ) → Checked keep_fds fd fds_sorted r
      → ChangesTargets keep_fds it p (
          (if ltb_ℤ max_keep_fd fd
              then rest fd it'
              else if not r.0
              then act fd >> continue r.1 it'
              else continue r.1 it')
            q)
  arms rounds continue ih few keep_fds it it' p q fd handed yields (sorted, bounded) (answer, keep')
        (right, sorted', same) =
      elim (Bool-cases (ltb_ℤ max_keep_fd fd)) [
        | inl beyond ↦ rw beyond (
            arm_rest rounds continue ih keep_fds keep' it it' p q fd handed yields same slice'
              (λ j after. ground (arith, bounded j)) (omega arith))
        | inr upto ↦ rw upto (elim (Bool-cases (contains keep_fds fd)) [
          | inl present ↦
              rw (right, present)
                (arm_keep rounds continue ih keep_fds keep' it it' p q fd handed yields same slice'
                  present)
          | inr missing ↦
              rw (right, missing)
                (arm_change rounds continue ih keep_fds keep' it it' p q fd handed yields same
                  slice' missing)
        ])
      ]
    where
      slice' : Slice keep' max_keep_fd fds_sorted it'.curfd
      slice' =
          let (le, isfd, next, foreign, passed, good) = yields in
          (
            sorted',
            λ j after t.
                ground (
                  arith,
                  bounded j,
                  same j,
                  +ℤ_parts fd (pos 1),
                  ap pos_part next,
                  ap neg_part next,
                ),
          )

  loop_body-Done :
      (rounds : ℕ) (keep_fds : List ℤ) (it it' : FdIter) (p q : Process K) (fd : Option ℤ)
      (continue : List ℤ → FdIter → Process K → Option (Unit {0} × Process K))
      → rounds < fuel
      → Loop continue rounds
      → Slice keep_fds max_keep_fd fds_sorted it.curfd
      → Handed target K limit it it' p.world q.world
      → Yields target K limit I.Good rounds it p.world fd it' q.world
      → ChangesTargets keep_fds it p
          (loop_body target K act rest continue keep_fds max_keep_fd fds_sorted (fd, it') q)
  unfolding loop_body
  loop_body-Done rounds keep_fds it it' p q none continue few ih slice handed drained =
      Returns-mono _ _ (FdIter.drop_fd_iter target K it' q)
        (drop_fd_iter-ChangesExactly target K T limit it' q)
        (λ _ u drop.
          Done-drop target K T limit eff E it it' (is_target it.curfd keep_fds)
            (is_target it'.curfd keep_fds) p.world q.world u.world handed drained
            (λ j h. ground arith) drop)
  loop_body-Done rounds keep_fds it it' p q (some fd) continue few ih slice handed yields =
      arms rounds continue ih few keep_fds it it' p q fd handed yields slice
        (check_should_keep keep_fds fd fds_sorted)
        (check_should_keep-Checked keep_fds fd fds_sorted slice.0)

  pub keep_loop-Done :
      (rounds : ℕ) (keep_fds : List ℤ) (it : FdIter) (p : Process K)
      → rounds ≤ fuel
      → I.Good rounds it p.world
      → Slice keep_fds max_keep_fd fds_sorted it.curfd
      → ChangesTargets keep_fds it p
          (keep_loop target K act rest rounds fuel keep_fds max_keep_fd fds_sorted it p)
  unfolding keep_loop
  keep_loop-Done zero keep_fds it p few good slice =
      absurd (omega (arith, I.rounds_lem 0 it p.world good))
  keep_loop-Done (suc rounds) keep_fds it p few good slice =
      Returns-bind _ _ (FdIter.next target K fuel it p) _ (I.next_lem rounds it p good)
        (λ (fd, it') q (handed, yields).
          loop_body-Done rounds keep_fds it it' p q fd
            (λ k i. keep_loop target K act rest rounds fuel k max_keep_fd fds_sorted i)
            (omega arith) (λ k i s g sl. keep_loop-Done rounds k i s (omega arith) g sl) slice
            handed yields)
