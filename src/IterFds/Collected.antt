-- ===== src/IterFds/Collected.antt =====
-- All descriptors that an `FdIter` gives (src/iterfds/fditer.rs), and `max` of it.
pub mod Whole
pub mod Exact
pub mod Greatest
use close_fds.Base.{
  ℕ, zero, suc, ◌≡◌, refl, sym, ◌∙◌, ap, ◌⊎◌, inl, inr, Bool, true, false, ◌||◌, Option, none, some,
  List, [], ◌∷◌, arith, ℤ, pos, negsuc, ◌≤ℤ◌, ◌<ℤ◌, ◌+ℤ◌, +ℤ_parts, leb_ℤ, ltb_ℤ, eqb_ℤ, int_max,
  IsInt, pos_part, neg_part, Action, pure, bind, ◌>>=◌, ◌>>◌, Returns, Returns-bind, Returns-mono,
  Bool-cases, contains, one_part, ℤ-trichotomy,
}
use mathlib.Core.Path.{subst}
use close_fds.Target.{Target}
use close_fds.Kernel.{Kernel}
use close_fds.Kernel.Laws.{IsTable}
use close_fds.Kernel.Effect.{closed, ChangesExactly}
use close_fds.Process.{Process}
use close_fds.IterFds.FdIter
use close_fds.IterFds.FdIter.{FdIter}
use close_fds.IterFds.Contract.{owned, Handed, Yields, IsIterator}
use close_fds.IterFds.Steps.{drop_fd_iter-ChangesExactly}

-- A list that climbs from a number on.
abbrev pub Climbs : ℤ → List ℤ → Type 0
Climbs a [] = Unit
Climbs a (x ∷ xs) = (a ≤ℤ x) × (x <ℤ int_max) × Climbs (x +ℤ pos 1) xs

abbrev pub last_or : Option ℤ → List ℤ → Option ℤ
last_or last [] = last
last_or last (x ∷ xs) = last_or (some x) xs

module _ (target : Target) (K : Kernel) where
  -- `collect()`: the calls of `next` until there is no descriptor, and the end of the iterator.
  unfoldable pub collected : ℕ → ℕ → FdIter → Action (Process K) (List ℤ)
  unfolding FdIter.next FdIter.drop_fd_iter
  collected zero fuel it = λ p. none
  collected (suc rounds) fuel it = do
    (fd, it') ← FdIter.next target K fuel it
    elim fd [
      | none ↦ FdIter.drop_fd_iter target K it' >> pure []
      | some fd ↦ (collected rounds fuel it' >>= λ fds. pure (fd ∷ fds))
    ]

  last_from-collected :
      (rounds fuel : ℕ) (last : Option ℤ) (it : FdIter) (p : Process K)
      → FdIter.last_from target K rounds fuel last it p
        ≡ (collected rounds fuel it >>= λ fds. pure (last_or last fds)) p
  unfolding collected FdIter.last_from
  last_from-collected zero fuel last it p = refl
  last_from-collected (suc rounds) fuel last it p =
      after (last_from-collected rounds fuel) (FdIter.next target K fuel it p)
    where
      ended :
          (o : Option (Unit {0} × Process K))
          → bind o (λ _. pure last) ≡ bind (bind o (λ _. pure [])) (λ fds. pure (last_or last fds))
      ended none = refl
      ended (some u) = refl

      put :
          (fd : ℤ) (o : Option (List ℤ × Process K))
          → bind o (λ fds. pure (last_or (some fd) fds))
            ≡ bind (bind o (λ fds. pure (fd ∷ fds))) (λ fds. pure (last_or last fds))
      put fd none = refl
      put fd (some u) = refl

      after :
          ((given : Option ℤ) (it' : FdIter) (q : Process K)
            → FdIter.last_from target K rounds fuel given it' q
              ≡ (collected rounds fuel it' >>= λ fds. pure (last_or given fds)) q)
          → (o : Option ((Option ℤ × FdIter) × Process K))
          → bind o (λ a. elim a.0 [
            | none ↦ FdIter.drop_fd_iter target K a.1 >> pure last
            | some fd ↦ FdIter.last_from target K rounds fuel (some fd) a.1
          ])
            ≡ bind
                (bind o (λ a. elim a.0 [
                  | none ↦ FdIter.drop_fd_iter target K a.1 >> pure []
                  | some fd ↦ (collected rounds fuel a.1 >>= λ fds. pure (fd ∷ fds))
                ]))
                (λ fds. pure (last_or last fds))
      after ih none = refl
      after ih (some ((none, it'), q)) = ended (FdIter.drop_fd_iter target K it' q)
      after ih (some ((some fd, it'), q)) =
          ih (some fd) it' q ∙ put fd (collected rounds fuel it' q)

  -- `max` gives the last of the descriptors that the calls of `next` give, on every kernel.
  pub max_fd-collected :
      (fuel : ℕ) (it : FdIter) (p : Process K)
      → FdIter.max_fd target K fuel it p
        ≡ (collected fuel fuel it >>= λ fds. pure (last_or none fds)) p
  unfolding FdIter.max_fd
  max_fd-collected fuel it p = last_from-collected fuel fuel none it p

module _ (target : Target) (K : Kernel) (T : IsTable K) (limit : ℤ) (fuel : ℕ)
    (I : IsIterator target K limit fuel) where
  -- The list climbs from `curfd` on and no open descriptor is missing; the directory is closed at the
  -- end, and nothing else is changed.
  abbrev pub Collects : FdIter → K.World → List ℤ → K.World → Type 0
  Collects it w fds v =
      Climbs it.curfd fds
      × ((j : ℤ)
          → IsInt j
          → it.curfd ≤ℤ j
          → j ≤ℤ limit
          → owned it j ≡ false
          → (contains fds j ≡ true) ⊎ (K.getfd j w ≡ negsuc 0))
      × ((j : ℤ)
          → IsInt j
          → (owned it j ≡ true → K.getfd j v ≡ negsuc 0)
            × (owned it j ≡ false → K.getfd j v ≡ K.getfd j w))

  Collects-none :
      (it it' : FdIter) (w v u : K.World)
      → Handed target K limit it it' w v
      → Yields target K limit I.Good 0 it w none it' v
      → ChangesExactly K closed (owned it') v u
      → Collects it w [] u
  Collects-none it it' w v u handed drained drop = (
    tt,
    λ j i from upto o. inr (drained j from upto o),
    λ j i. (λ o. ground (arith, handed j i, drop j i), λ o. ground (arith, handed j i, drop j i)),
  )

  Collects-some :
      (rounds : ℕ) (it it' : FdIter) (fd : ℤ) (fds : List ℤ) (w v u : K.World)
      → Handed target K limit it it' w v
      → Yields target K limit I.Good rounds it w (some fd) it' v
      → Collects it' v fds u
      → Collects it w (fd ∷ fds) u
  Collects-some rounds it it' fd fds w v u handed (le, isfd, next, foreign, passed, good)
        (climbs, all, table) =
      (
        (le, isfd.1, subst (λ c. Climbs c fds) next climbs),
        λ j i from upto o. elim (ℤ-trichotomy j fd) [
          | inl below ↦ inr (passed j from below upto o)
          | inr (inl same) ↦ inl (ground (arith, same))
          | inr (inr above) ↦
              let from' : it'.curfd ≤ℤ j =
                subst (λ c. c ≤ℤ j) (sym next) (omega (arith, +ℤ_parts fd (pos 1))) in
              let free : owned it' j ≡ false = ground (arith, handed j i, o) in
              elim (all j i from' upto free) [
                | inl given ↦ inl (ground (arith, given))
                | inr gone ↦ inr (sym ((handed j i).2 o) ∙ gone)
              ]
        ],
        λ j i. (
          λ o. ground (arith, handed j i, table j i),
          λ o. ground (arith, handed j i, table j i),
        ),
      )

  pub collected-Collects :
      (rounds : ℕ) (it : FdIter) (p : Process K)
      → I.Good rounds it p.world
      → Returns (collected target K rounds fuel it p) (λ fds q. Collects it p.world fds q.world)
  unfolding collected
  collected-Collects zero it p good = absurd (omega (arith, I.rounds_lem 0 it p.world good))
  collected-Collects (suc rounds) it p good =
      Returns-bind _ _ (FdIter.next target K fuel it p) _ (I.next_lem rounds it p good)
        (after (collected-Collects rounds))
    where
      after :
          ((it' : FdIter) (q : Process K)
            → I.Good rounds it' q.world
            → Returns
                (collected target K rounds fuel it' q)
                (λ fds u. Collects it' q.world fds u.world))
          → (a : Option ℤ × FdIter) (q : Process K)
          → Handed target K limit it a.1 p.world q.world
            × Yields target K limit I.Good rounds it p.world a.0 a.1 q.world
          → Returns
              ((elim a.0 as (λ _. Action (Process K) (List ℤ)) [
                | none ↦ FdIter.drop_fd_iter target K a.1 >> pure []
                | some fd ↦ (collected target K rounds fuel a.1 >>= λ fds. pure (fd ∷ fds))
              ])
                q)
              (λ fds u. Collects it p.world fds u.world)
      after ih (none, it') q (handed, drained) =
          Returns-bind _ _ (FdIter.drop_fd_iter target K it' q) _
            (drop_fd_iter-ChangesExactly target K T limit it' q)
            (λ _ u drop. Collects-none it it' p.world q.world u.world handed drained drop)
      after ih (some fd, it') q (handed, yields) =
          Returns-bind _ _ (collected target K rounds fuel it' q) _ (ih it' q yields.5)
            (λ fds u collects.
              Collects-some rounds it it' fd fds p.world q.world u.world handed yields collects)
