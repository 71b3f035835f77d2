-- ===== src/IterFds/Least.antt =====
-- `min` of an `FdIter` (src/iterfds/fditer.rs): an iterator is built, asked once, and dropped.
use close_fds.Base.{
  ℕ, suc, ◌+◌, ◌≤◌, ◌≡◌, true, false, Option, none, some, arith, ℤ, negsuc, ◌≤ℤ◌, ◌<ℤ◌, int_max,
  IsInt, ◌>>=◌, Returns, Returns-bind, Returns-mono, inl, inr,
}
use mathlib.Core.Path.{subst}
use close_fds.Target.{Target}
use close_fds.Kernel.{Kernel}
use close_fds.Kernel.Laws.{IsTable}
use close_fds.Kernel.Effect.{closed, ChangesExactly}
use close_fds.Process.{Process}
use close_fds.IterFds.FdIter
use close_fds.IterFds.FdIter.{FdIter, clamp_limit, min_fd}
use close_fds.IterFds.Builder
use close_fds.IterFds.Builder.{FdIterBuilder, iter_possible_fds}
use close_fds.IterFds.DirFd.Laws.{IsDirectory, Opens}
use close_fds.IterFds.FdIter.Limits.{IsBounded}
use close_fds.IterFds.Contract.{owned, Handed, Yields, IsIterator}
use close_fds.IterFds.Steps.{drop_fd_iter-ChangesExactly}
use close_fds.CloseFds.KeepLoop.Started.{Opened}
use close_fds.IterFds.Clamped.{clamped, clamped-bounds, clamped_from, I, iter_from-IsNew}

module _ (target : Target) (K : Kernel) (limit : ℤ) where
  -- No descriptor is open from `m` up to the result, as far as the limit; nothing was changed.
  abbrev pub IsLeast : ℤ → K.World → Option ℤ → K.World → Type 0
  IsLeast m w none v =
      ((j : ℤ) → IsInt j → K.getfd j v ≡ K.getfd j w)
      × ((j : ℤ) → IsInt j → m ≤ℤ j → j ≤ℤ limit → K.getfd j w ≡ negsuc 0)
  IsLeast m w (some fd) v =
      ((j : ℤ) → IsInt j → K.getfd j v ≡ K.getfd j w)
      × (m ≤ℤ fd)
      × (fd <ℤ int_max)
      × ((j : ℤ) → IsInt j → m ≤ℤ j → j <ℤ fd → j ≤ℤ limit → K.getfd j w ≡ negsuc 0)

  -- No descriptor lies below the number that the iterator begins with.
  IsLeast-clamped :
      (T : IsTable K) (m : ℤ) (w : K.World) (r : Option ℤ) (v : K.World)
      → IsInt m
      → IsLeast (clamped m) w r v
      → IsLeast m w r v
  IsLeast-clamped T m w none v int (table, absent) = (
    table,
    λ j i from upto. elim (clamped_from K T m j w from) [
      | inl above ↦ absent j i above upto
      | inr gone ↦ gone
    ],
  )
  IsLeast-clamped T m w (some fd) v int (table, le, lt, absent) =
      let over = (clamped-bounds m int).2 in
      (
        table,
        omega arith,
        lt,
        λ j i from below upto. elim (clamped_from K T m j w from) [
          | inl above ↦ absent j i above below upto
          | inr gone ↦ gone
        ],
      )

  module _ (T : IsTable K) (fuel : ℕ) (I : IsIterator target K limit (suc fuel)) (it : FdIter)
      (w : K.World) (p : Process K) (opened : Opened K it w p.world) where
    -- What is known once the iterator is dropped.
    dropped :
        (it' : FdIter) (v u : K.World)
        → Handed target K limit it it' p.world v
        → ChangesExactly K closed (owned it') v u
        → (j : ℤ) → IsInt j
        → K.getfd j u ≡ K.getfd j w
    dropped it' v u handed drop j i = ground (arith, opened j i, handed j i, drop j i)

    absent :
        (j : ℤ)
        → IsInt j
        → (owned it j ≡ false → K.getfd j p.world ≡ negsuc 0)
        → K.getfd j w ≡ negsuc 0
    absent j i free = ground (arith, opened j i)

    yielded-IsLeast :
        (r : Option ℤ) (it' : FdIter) (v u : K.World)
        → Handed target K limit it it' p.world v
        → Yields target K limit I.Good fuel it p.world r it' v
        → ChangesExactly K closed (owned it') v u
        → IsLeast it.curfd w r u
    yielded-IsLeast none it' v u handed drained drop =
        (dropped it' v u handed drop, λ j i from upto. absent j i (λ o. drained j from upto o))
    yielded-IsLeast (some fd) it' v u handed (le, isfd, next, foreign, passed, good) drop = (
      dropped it' v u handed drop,
      le,
      isfd.1,
      λ j i from below upto. absent j i (λ o. passed j from below upto o),
    )

    min_fd-IsLeast :
        I.Good (suc fuel) it p.world
        → Returns (min_fd target K (suc fuel) it p) (λ r q. IsLeast it.curfd w r q.world)
    unfolding min_fd
    min_fd-IsLeast good =
        Returns-bind _ _ (FdIter.next target K (suc fuel) it p) _ (I.next_lem fuel it p good)
          (λ (fd, it') q (handed, yields).
            Returns-bind _ _ (FdIter.drop_fd_iter target K it' q) _
              (drop_fd_iter-ChangesExactly target K T limit it' q)
              (λ _ u drop. yielded-IsLeast fd it' q.world u.world handed yields drop))

  module _ (T : IsTable K) (top : ℕ) (L : IsBounded target K limit top) (entries : ℕ)
      (D : IsDirectory K entries) where
    -- Over a kernel and a directory that keep their promises, also on how large a descriptor may
    -- be, on every system, with fuel for the directory's entries and for more rounds than the
    -- largest number `top` that a descriptor may have, and for a `minfd` that is any
    -- `c_int`, `iter_possible_fds(minfd).min()` ends. It leaves every descriptor as it was, that of
    -- the directory too; a result is not below `minfd`, but below the largest `c_int`; and of the
    -- descriptors from `minfd` on none is open below the result, or none at all where there is no
    -- result, as far as a number that the clamped soft limit never falls below.
    pub min_fd-possible :
        (fuel : ℕ) (minfd : ℤ) (p : Process K)
        → Opens K target entries D
        → entries + suc top ≤ fuel
        → IsInt minfd
        → Returns
            ((iter_possible_fds target K minfd >>= min_fd target K (suc fuel)) p)
            (λ r q. IsLeast minfd p.world r q.world)
    unfolding iter_possible_fds Builder.possible
    min_fd-possible fuel minfd p opens enough int =
        let J : IsIterator target K limit (suc fuel) =
          I target K T limit top L entries D fuel enough in
        Returns-bind _ _ (iter_possible_fds target K minfd p) _
          (iter_from-IsNew target K T limit top L entries D fuel enough minfd p
            (Builder.possible true Builder.new) opens int)
          (λ it q (good, at, opened).
            Returns-mono _ _ (min_fd target K (suc fuel) it q)
              (min_fd-IsLeast T fuel J it p.world q opened good)
              (λ r u least.
                IsLeast-clamped T minfd p.world r u.world int
                  (subst (λ c. IsLeast c p.world r u.world) at least)))
