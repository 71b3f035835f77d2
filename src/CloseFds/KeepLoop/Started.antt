-- ===== src/CloseFds/KeepLoop/Started.antt =====
-- A shortcut, and where it fails the loop over a new iterator: what `close_fds` and `set_fds_cloexec`
-- consist of.
use close_fds.Base.{
  ℕ, ◌≡◌, ◌⊎◌, inl, inr, Bool, true, false, List, arith, ℤ, pos, negsuc, ◌≤ℤ◌, int_max, IsInt,
  Result, ok, err, Action, pure, ◌>>=◌, Returns, Returns-bind, Returns-mono, Bool-cases,
}
use mathlib.Core.Path.{subst}
use close_fds.Target.{Target}
use close_fds.Kernel.{Kernel}
use close_fds.Kernel.Laws.{IsTable}
use close_fds.Kernel.Effect.{IsEffect, Attempts}
use close_fds.Process.{Process}
use close_fds.Util.{simplify_keep_fds}
use close_fds.Util.Simplify.{is_target, simplify_keep_fds-is_target}
use close_fds.IterFds.FdIter.{FdIter}
use close_fds.IterFds.Builder
use close_fds.IterFds.Builder.{FdIterBuilder}
use close_fds.IterFds.Contract.{owned, Done, IsIterator}
use close_fds.IterFds.Loops.Each.{Acts}
use close_fds.CloseFds.KeepFds.{KeepFds}
use close_fds.CloseFds.KeepLoop.{keep_loop}
use close_fds.CloseFds.KeepLoop.Refine.{Rests, keep_loop-Done}
use close_fds.CloseFds.Request.{IsKept, IsRequest, simplified-IsRequest}

-- Nothing but descriptors in `P` was changed, by the effect, and these all up to the limit.
abbrev pub Outcome : (K : Kernel) → (ℤ → ℤ) → ℤ → (ℤ → Bool) → K.World → K.World → Type 0
Outcome K eff limit P w w' =
    (j : ℤ)
    → IsInt j
    → ((K.getfd j w' ≡ K.getfd j w) ⊎ ((P j ≡ true) × (K.getfd j w' ≡ eff (K.getfd j w))))
      × (P j ≡ true → j ≤ℤ limit → K.getfd j w' ≡ eff (K.getfd j w))

-- The start of an iterator opens at most its directory.
abbrev pub Opened : (K : Kernel) → FdIter → K.World → K.World → Type 0
Opened K it w v =
    (j : ℤ)
    → IsInt j
    → (owned it j ≡ true → K.getfd j w ≡ negsuc 0)
      × (owned it j ≡ false → K.getfd j v ≡ K.getfd j w)

Opened-Outcome :
    (K : Kernel) (eff : ℤ → ℤ) (limit : ℤ) (P : ℤ → Bool) (it : FdIter) (u v w : K.World)
    → IsEffect eff
    → Opened K it u v
    → Done K eff limit (owned it) P v w
    → Outcome K eff limit P u w
Opened-Outcome K eff limit P it u v w e opened d j i = elim (Bool-cases (owned it j)) [
  | inl o ↦ ground (arith, e.absent, opened j i, d j i)
  | inr o ↦ ground (arith, opened j i, d j i)
]

module _ (target : Target) (K : Kernel) (T : IsTable K) (limit : ℤ) (fuel : ℕ)
    (I : IsIterator target K limit fuel) (itbuilder : FdIterBuilder) where
  -- A new iterator is good, begins at `m`, and comes to its end within the fuel.
  abbrev pub Starts : Type 0
  Starts =
      (m : ℤ) (p : Process K)
      → pos 0 ≤ℤ m
      → m ≤ℤ int_max
      → Returns (Builder.iter_from target K m itbuilder p)
          (λ it q. I.Good fuel it q.world × (it.curfd ≡ m) × Opened K it p.world q.world)

  module _ (starts : Starts) (eff : ℤ → ℤ) (E : IsEffect eff)
      (act : ℤ → Action (Process K) (Unit {0})) (acts : Acts target K T limit fuel I eff E act)
      (rest : ℤ → FdIter → Action (Process K) (Unit {0}))
      (rests : Rests target K T limit fuel I eff E rest) where
    -- The loop over a new iterator, after a shortcut that may have changed some of the targets.
    started-Outcome :
        (m : ℤ) (k : List ℤ) (max_keep_fd : ℤ) (fds_sorted : Bool) (w : K.World) (p : Process K)
        → IsRequest m k max_keep_fd fds_sorted
        → Attempts K eff (is_target m k) w err p.world
        → Returns
            ((Builder.iter_from target K m itbuilder
                >>= keep_loop target K act rest fuel fuel k max_keep_fd fds_sorted)
              p)
            (λ _ q. Outcome K eff limit (is_target m k) w q.world)
    started-Outcome m k max_keep_fd fds_sorted w p h some_changed =
        Returns-bind _ _ (Builder.iter_from target K m itbuilder p) _ (starts m p h.nonneg h.within)
          (λ it q (good, at, opened).
            Returns-mono _ _ (keep_loop target K act rest fuel fuel k max_keep_fd fds_sorted it q)
              (keep_loop-Done target K T limit fuel I eff E act acts rest rests max_keep_fd
                fds_sorted fuel k it q (omega arith) good (h.flag, λ j le t. h.bounded j t))
              (λ _ u d j i.
                let done : Done K eff limit (owned it) (is_target m k) q.world u.world =
                  subst (λ c. Done K eff limit (owned it) (is_target c k) q.world u.world) at d in
                let outcome =
                  Opened-Outcome K eff limit (is_target m k) it p.world q.world u.world E opened
                    done in
                ground (arith, E.twice (K.getfd j w), some_changed j i, outcome j i)))

    module _ (minfd : ℤ) (keep : KeepFds) (p : Process K) (h : IsKept keep) (low : pos 0 ≤ℤ minfd)
        (high : minfd ≤ℤ int_max) (shortcut : Action (Process K) (Result (Unit {0}))) where
      -- The slice and the bound that `simplify_keep_fds` leaves.
      abbrev pub slice : List ℤ
      slice = (simplify_keep_fds keep.fds keep.sorted minfd).0

      abbrev pub bound : ℤ
      bound = (simplify_keep_fds keep.fds keep.sorted minfd).1

      abbrev pub otherwise : Result (Unit {0}) → Action (Process K) (Unit {0})
      otherwise r = elim r [
        | ok _ ↦ pure tt
        | err ↦
            Builder.iter_from target K bound itbuilder
            >>= keep_loop target K act rest fuel fuel slice keep.max keep.sorted
      ]

      pub shortcut_or_loop-Outcome :
          Returns (shortcut p) (λ r q. Attempts K eff (is_target bound slice) p.world r q.world)
          → Returns
              ((shortcut >>= otherwise) p)
              (λ _ q. Outcome K eff limit (is_target minfd keep.fds) p.world q.world)
      shortcut_or_loop-Outcome attempts = Returns-bind _ _ (shortcut p) otherwise attempts after
        where
          same : (j : ℤ) → is_target bound slice j ≡ is_target minfd keep.fds j
          same j =
              simplify_keep_fds-is_target keep.fds keep.sorted minfd j h.below_max (ground arith)

          after :
              (r : Result (Unit {0})) (q : Process K)
              → Attempts K eff (is_target bound slice) p.world r q.world
              → Returns
                  (otherwise r q)
                  (λ _ u. Outcome K eff limit (is_target minfd keep.fds) p.world u.world)
          after (ok _) q all_changed = λ j i. ground (arith, all_changed j i, same j)
          after err q some_changed =
              Returns-mono (λ _ u. Outcome K eff limit (is_target bound slice) p.world u.world) _
                (otherwise err q)
                (started-Outcome bound slice keep.max keep.sorted p.world q
                  (simplified-IsRequest keep minfd h low high) some_changed)
                (λ _ u d j i. ground (arith, d j i, same j))
