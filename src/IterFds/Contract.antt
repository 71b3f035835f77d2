-- ===== src/IterFds/Contract.antt =====
-- What the code that consumes an `FdIter` relies on: an interface of laws, which the ways to iterate
-- fill, and the effect on the table of descriptors that a consumer builds from them.
use close_fds.Base.{
  ℕ, suc, ◌≤◌, ◌<◌, ◌≡◌, ◌≢◌, ◌⊎◌, Bool, true, false, Option, none, some, arith, ℤ, pos, negsuc,
  ◌≤ℤ◌, ◌<ℤ◌, ◌+ℤ◌, eqb_ℤ, leb_ℤ, ◌&&◌, IsInt, Returns,
}
use close_fds.Target.{Target}
use close_fds.Kernel.{Kernel}
use close_fds.Kernel.Effect.{IsEffect}
use close_fds.Process.{Process}
use close_fds.Util.Ranges.{IsFd}
use close_fds.IterFds.FdIter
use close_fds.IterFds.FdIter.{FdIter}

-- The open descriptor of the directory that the iterator reads.
abbrev pub owned : FdIter → ℤ → Bool
owned it j = elim it.dirfd_iter [ none ↦ false | some d ↦ leb_ℤ (pos 0) d.dirfd && eqb_ℤ d.dirfd j ]

module _ (K : Kernel) (eff : ℤ → ℤ) where
  -- All of `own` is closed at the end. Of the rest only descriptors in `P` are changed, by the effect,
  -- and among these all up to the limit.
  abbrev pub Done : ℤ → (ℤ → Bool) → (ℤ → Bool) → K.World → K.World → Type 0
  Done limit own P w w' =
      (j : ℤ)
      → IsInt j
      → (own j ≡ true → K.getfd j w' ≡ negsuc 0)
        × (own j ≡ false
            → ((K.getfd j w' ≡ K.getfd j w) ⊎ ((P j ≡ true) × (K.getfd j w' ≡ eff (K.getfd j w))))
              × (P j ≡ true → j ≤ℤ limit → K.getfd j w' ≡ eff (K.getfd j w)))

  -- A first part of such a work, after which `own'` and `P'` are left to do.
  abbrev pub Begun :
      ℤ → (ℤ → Bool) → (ℤ → Bool) → (ℤ → Bool) → (ℤ → Bool) → K.World → K.World → Type 0
  Begun limit own P own' P' w v =
      (j : ℤ)
      → IsInt j
      → (own j ≡ true → (own' j ≡ true) ⊎ (K.getfd j v ≡ negsuc 0))
        × (own' j ≡ true → own j ≡ true)
        × (P' j ≡ true → P j ≡ true)
        × (own j ≡ false
            → ((K.getfd j v ≡ K.getfd j w) ⊎ ((P j ≡ true) × (K.getfd j v ≡ eff (K.getfd j w))))
              × (P j ≡ true → j ≤ℤ limit → (P' j ≡ true) ⊎ (K.getfd j v ≡ eff (K.getfd j w))))

  pub Begun-Done :
      (limit : ℤ) (own P own' P' : ℤ → Bool) (w v w' : K.World)
      → IsEffect eff
      → Begun limit own P own' P' w v
      → Done limit own' P' v w'
      → Done limit own P w w'
  Begun-Done limit own P own' P' w v w' e b d j i = (
    λ o. ground (arith, b j i, d j i),
    λ o. (
      ground (arith, e.twice (K.getfd j w), b j i, d j i),
      λ t le. ground (arith, e.twice (K.getfd j w), b j i, d j i),
    ),
  )

  -- What a call that changed no descriptor left is as good a start.
  pub Done-unchanged :
      (limit : ℤ) (own P : ℤ → Bool) (u v w : K.World)
      → ((j : ℤ) → K.getfd j v ≡ K.getfd j u)
      → Done limit own P v w
      → Done limit own P u w
  Done-unchanged limit own P u v w same d j i = (
    λ o. ground (arith, d j i),
    λ o. (ground (arith, d j i, same j), λ t le. ground (arith, d j i, same j)),
  )

-- What a call of `next` gives, on the way up to the limit: a descriptor that is not below `curfd`, with
-- no open one passed over, or the end, with none left.
module _ (target : Target) (K : Kernel) (limit : ℤ) where
  abbrev pub Passed : FdIter → ℤ → K.World → Type 0
  Passed it fd w =
      (j : ℤ) → it.curfd ≤ℤ j → j <ℤ fd → j ≤ℤ limit → owned it j ≡ false → K.getfd j w ≡ negsuc 0

  abbrev pub Drained : FdIter → K.World → Type 0
  Drained it w = (j : ℤ) → it.curfd ≤ℤ j → j ≤ℤ limit → owned it j ≡ false → K.getfd j w ≡ negsuc 0

  -- The directory's descriptor is kept or closed, and nothing else changes.
  abbrev pub Handed : FdIter → FdIter → K.World → K.World → Type 0
  Handed it it' w v =
      (j : ℤ)
      → IsInt j
      → (owned it j ≡ true → (owned it' j ≡ true) ⊎ (K.getfd j v ≡ negsuc 0))
        × (owned it' j ≡ true → owned it j ≡ true)
        × (owned it j ≡ false → K.getfd j v ≡ K.getfd j w)

  abbrev pub Yields :
      (ℕ → FdIter → K.World → Type 0) → ℕ → FdIter → K.World → Option ℤ → FdIter → K.World → Type 0
  Yields Good rounds it w none it' v = Drained it w
  Yields Good rounds it w (some fd) it' v =
      (it.curfd ≤ℤ fd)
      × IsFd fd
      × (it'.curfd ≡ fd +ℤ pos 1)
      × (owned it' fd ≡ false)
      × Passed it fd w
      × Good rounds it' v

  pub record IsIterator (fuel : ℕ) : Type 1 where
    -- ready, and at the end after a number of calls of `next`
    pub Good : ℕ → FdIter → K.World → Type 0
    pub rounds_lem : (rounds : ℕ) (it : FdIter) (w : K.World) → Good rounds it w → 0 < rounds
    pub more_lem :
        (rounds more : ℕ) (it : FdIter) (w : K.World)
        → rounds ≤ more
        → Good rounds it w
        → Good more it w
    pub next_lem :
        (rounds : ℕ) (it : FdIter) (p : Process K)
        → Good (suc rounds) it p.world
        → Returns
            (FdIter.next target K fuel it p)
            (λ r q. Handed it r.1 p.world q.world × Yields Good rounds it p.world r.0 r.1 q.world)
    -- closing a descriptor that the iterator gave does not disturb it, nor does setting its flags
    pub close_lem :
        (rounds : ℕ) (it : FdIter) (w : K.World) (fd : ℤ)
        → Good rounds it w
        → owned it fd ≡ false
        → Good rounds it (K.close fd w)
    pub setfd_lem :
        (rounds : ℕ) (it : FdIter) (w : K.World) (fd flags : ℤ)
        → Good rounds it w
        → Good rounds it (K.setfd fd flags w)
    -- nor does a `close_range` that the kernel refuses
    pub refused_lem :
        (rounds : ℕ) (it : FdIter) (w : K.World) (first last flags : ℕ)
        → Good rounds it w
        → (K.close_range first last flags w).0 ≢ pos 0
        → Good rounds it (K.close_range first last flags w).1
