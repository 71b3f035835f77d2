-- ===== src/IterFds/Loops/Each.antt =====
-- The loop over an iterator changes every descriptor that is left in it.
use close_fds.Base.{
  ℕ, zero, suc, ◌≡◌, ap, inl, false, Option, none, some, arith, ℤ, pos, ◌≤ℤ◌, ◌<ℤ◌, ◌+ℤ◌, +ℤ_parts,
  eqb_ℤ, leb_ℤ, uint_max, as_uint, as_uint-pos, IsInt, Action, ◌>>◌, Returns, Returns-bind,
  Returns-mono, pos_part, neg_part,
}
use close_fds.Target.{Target}
use close_fds.Kernel.{Kernel}
use close_fds.Kernel.Laws.{IsTable, in_range}
use close_fds.Kernel.Effect.{IsEffect, ChangesExactly}
use close_fds.Process.{Process}
use close_fds.Util.Ranges.{IsFd}
use close_fds.IterFds.FdIter
use close_fds.IterFds.FdIter.{FdIter}
use close_fds.IterFds.Contract.{
  owned, Done, Begun, Begun-Done, Done-unchanged, Handed, Yields, IsIterator,
}
use close_fds.IterFds.Steps.{drop_fd_iter-ChangesExactly, Begun-change, Done-drop}
use close_fds.IterFds.Loops.{each_body, for_each}

-- The next descriptor that an iterator may give.
pub from_next :
    (curfd fd j : ℤ) → curfd ≡ fd +ℤ pos 1 → (fd <ℤ j → curfd ≤ℤ j) × (curfd ≤ℤ j → fd <ℤ j)
from_next curfd fd j next = (
  λ lt. omega (arith, +ℤ_parts fd (pos 1), ap pos_part next, ap neg_part next),
  λ le. omega (arith, +ℤ_parts fd (pos 1), ap pos_part next, ap neg_part next),
)

module _ (target : Target) (K : Kernel) (T : IsTable K) (limit : ℤ) (fuel : ℕ)
    (I : IsIterator target K limit fuel) (eff : ℤ → ℤ) (E : IsEffect eff) where
  -- What an action does: it has the effect on its descriptor, and does not disturb the iterator.
  abbrev pub Acts : (ℤ → Action (Process K) (Unit {0})) → Type 0
  Acts act =
      (rounds : ℕ) (it : FdIter) (p : Process K) (fd : ℤ)
      → I.Good rounds it p.world
      → IsFd fd
      → owned it fd ≡ false
      → Returns (act fd p)
          (λ _ q. ChangesExactly K eff (eqb_ℤ fd) p.world q.world × I.Good rounds it q.world)

  module _ (act : ℤ → Action (Process K) (Unit {0})) (acts : Acts act) where
    abbrev ChangesFrom : ℤ → FdIter → Process K → Option (Unit {0} × Process K) → Type 0
    ChangesFrom fd it p r =
        Returns r (λ _ q. Done K eff limit (owned it) (λ j. leb_ℤ fd j) p.world q.world)

    each_body-Done :
        (rounds : ℕ) (it it' : FdIter) (p q : Process K) (fd : Option ℤ)
        (continue : FdIter → Action (Process K) (Unit {0}))
        → ((i : FdIter) (s : Process K)
            → I.Good rounds i s.world
            → ChangesFrom i.curfd i s (continue i s))
        → Handed target K limit it it' p.world q.world
        → Yields target K limit I.Good rounds it p.world fd it' q.world
        → ChangesFrom it.curfd it p (each_body target K act continue (fd, it') q)
    unfolding each_body
    each_body-Done rounds it it' p q none continue ih handed drained =
        Returns-mono _ _ (FdIter.drop_fd_iter target K it' q)
          (drop_fd_iter-ChangesExactly target K T limit it' q)
          (λ _ u drop.
            Done-drop target K T limit eff E it it' (λ j. leb_ℤ it.curfd j) (λ j. leb_ℤ it'.curfd j)
              p.world q.world u.world handed drained (λ j h. ground arith) drop)
    each_body-Done rounds it it' p q (some fd) continue ih handed
          (le, isfd, next, foreign, passed, good) =
        Returns-bind _ _ (act fd q) (λ _. continue it') (acts rounds it' q fd good isfd foreign)
          (λ _ s (changed, good'). Returns-mono _ _ (continue it' s) (ih it' s good') (λ _ u d.
            Begun-Done K eff limit (owned it) (λ j. leb_ℤ it.curfd j) (owned it')
              (λ j. leb_ℤ it'.curfd j) p.world s.world u.world E
              (Begun-change target K T limit eff E it it' (λ j. leb_ℤ it.curfd j)
                (λ j. leb_ℤ it'.curfd j) p.world q.world fd s.world handed passed (ground arith)
                (λ j t. ground arith) (λ j t. ground (arith, from_next it'.curfd fd j next))
                (λ j t after. ground (arith, from_next it'.curfd fd j next)) changed)
              d))

    pub for_each-Done :
        (rounds : ℕ) (it : FdIter) (p : Process K)
        → I.Good rounds it p.world
        → ChangesFrom it.curfd it p (for_each target K act rounds fuel it p)
    unfolding for_each
    for_each-Done zero it p g = absurd (omega (arith, I.rounds_lem 0 it p.world g))
    for_each-Done (suc rounds) it p g =
        Returns-bind _ _ (FdIter.next target K fuel it p) _ (I.next_lem rounds it p g)
          (λ (fd, it') q (handed, yields).
            each_body-Done rounds it it' p q fd (for_each target K act rounds fuel)
              (for_each-Done rounds) handed yields)

    -- One descriptor is changed, and those from `curfd` on, which is the next, are left to do.
    Begun-first :
        (it : FdIter) (fd : ℤ) (w v : K.World)
        → it.curfd ≡ fd +ℤ pos 1
        → ChangesExactly K eff (eqb_ℤ fd) w v
        → owned it fd ≡ false
        → Begun K eff limit (owned it) (λ j. leb_ℤ fd j) (owned it) (λ j. leb_ℤ it.curfd j) w v
    Begun-first it fd w v next changed foreign j i = (
      λ o. inl o,
      λ o. o,
      λ t. ground (arith, from_next it.curfd fd j next),
      λ o. (
        ground (arith, changed j i),
        λ t le. ground (arith, changed j i, from_next it.curfd fd j next),
      ),
    )

    -- The end of `close_rest` and of `set_cloexec_rest`: one descriptor, and then the loop.
    pub first_each-Done :
        (it : FdIter) (p : Process K) (fd : ℤ)
        → I.Good fuel it p.world
        → IsFd fd
        → it.curfd ≡ fd +ℤ pos 1
        → owned it fd ≡ false
        → ChangesFrom fd it p ((act fd >> for_each target K act fuel fuel it) p)
    first_each-Done it p fd good isfd next foreign =
        Returns-bind _ _ (act fd p) (λ _. for_each target K act fuel fuel it)
          (acts fuel it p fd good isfd foreign)
          (λ _ s (changed, good').
            Returns-mono _ _ (for_each target K act fuel fuel it s) (for_each-Done fuel it s good')
              (λ _ u d.
                Begun-Done K eff limit (owned it) (λ j. leb_ℤ fd j) (owned it)
                  (λ j. leb_ℤ it.curfd j) p.world s.world u.world E
                  (Begun-first it fd p.world s.world next changed foreign) d))

    -- The same after a call that changed no descriptor.
    pub refused-Done :
        (it : FdIter) (u : K.World) (p : Process K) (fd : ℤ)
        → ((j : ℤ) → K.getfd j p.world ≡ K.getfd j u)
        → I.Good fuel it p.world
        → IsFd fd
        → it.curfd ≡ fd +ℤ pos 1
        → owned it fd ≡ false
        → Returns
            ((act fd >> for_each target K act fuel fuel it) p)
            (λ _ q. Done K eff limit (owned it) (λ j. leb_ℤ fd j) u q.world)
    refused-Done it u p fd same good isfd next foreign =
        Returns-mono _ _ ((act fd >> for_each target K act fuel fuel it) p)
          (first_each-Done it p fd good isfd next foreign)
          (λ _ q d.
            Done-unchanged K eff limit (owned it) (λ j. leb_ℤ fd j) u p.world q.world same d)

  -- A call that changed all from `fd` on, and then the end of the iterator.
  pub range-Done :
      (it : FdIter) (u : K.World) (p : Process K) (fd : ℤ)
      → IsFd fd
      → ChangesExactly K eff (in_range (as_uint fd) uint_max) u p.world
      → Returns
          (FdIter.drop_fd_iter target K it p)
          (λ _ q. Done K eff limit (owned it) (λ j. leb_ℤ fd j) u q.world)
  range-Done it u p fd isfd changed =
      Returns-mono _ _ (FdIter.drop_fd_iter target K it p)
        (drop_fd_iter-ChangesExactly target K T limit it p)
        (λ _ q drop j i. (
          λ o. ground (arith, drop j i),
          λ o. (
            ground (arith, changed j i, drop j i, same j i),
            λ t le. ground (arith, changed j i, drop j i, same j i),
          ),
        ))
    where
      same : (j : ℤ) → IsInt j → in_range (as_uint fd) uint_max j ≡ leb_ℤ fd j
      same j i = ground (arith, as_uint-pos fd isfd.0 (omega arith))
