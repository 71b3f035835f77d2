-- ===== src/IterFds/Collected/Whole.antt =====
-- `collect` and `max` of an iterator that a builder makes (src/iterfds/mod.rs, src/iterfds/fditer.rs).
use close_fds.Base.{
  ℕ, suc, ◌+◌, ◌≤◌, ◌≡◌, sym, ◌∙◌, ◌⊎◌, inl, inr, Bool-cases, true, Option, none, some, List, [],
  ◌∷◌, arith, ℤ, pos, negsuc, ◌≤ℤ◌, ◌<ℤ◌, ◌+ℤ◌, +ℤ_parts, eqb_ℤ, eqb_ℤ-iff, IsInt, ◌>>=◌, Returns,
  Returns-bind, Returns-mono, contains,
}
use mathlib.Core.Path.{subst}
use close_fds.Target.{Target}
use close_fds.Kernel.{Kernel}
use close_fds.Kernel.Laws.{IsTable}
use close_fds.Process.{Process}
use close_fds.IterFds.FdIter.{FdIter, max_fd}
use close_fds.IterFds.Builder
use close_fds.IterFds.Builder.{FdIterBuilder}
use close_fds.IterFds.DirFd.Laws.{IsDirectory, Opens}
use close_fds.IterFds.FdIter.Limits.{IsBounded}
use close_fds.IterFds.Contract.{owned, IsIterator}
use close_fds.IterFds.Clamped.{clamped, clamped-bounds, clamped_from, I, IsNew, iter_from-IsNew}
use close_fds.IterFds.Collected.{
  Climbs, last_or, collected, max_fd-collected, Collects, collected-Collects,
}
use close_fds.CloseFds.KeepLoop.Started.{Opened}

-- A descriptor that does not lie above the result.
abbrev pub UpTo : ℤ → Option ℤ → Type 0
UpTo j none = ⊥
UpTo j (some fd) = j ≤ℤ fd

Climbs-mono : (a b : ℤ) (fds : List ℤ) → a ≤ℤ b → Climbs b fds → Climbs a fds
Climbs-mono a b [] le climbs = tt
Climbs-mono a b (x ∷ xs) le (from, below, climbs) = (omega arith, below, climbs)

-- The last element of a list that climbs is the largest.
UpTo-last :
    (a x : ℤ) (xs : List ℤ) (j : ℤ) → j ≤ℤ x → x <ℤ a → Climbs a xs → UpTo j (last_or (some x) xs)
UpTo-last a x [] j le lt climbs = le
UpTo-last a x (y ∷ ys) j le lt (from, below, climbs) =
    UpTo-last (y +ℤ pos 1) y ys j (omega arith) (omega (arith, +ℤ_parts y (pos 1))) climbs

contains-UpTo :
    (a : ℤ) (last : Option ℤ) (xs : List ℤ) (j : ℤ)
    → Climbs a xs
    → contains xs j ≡ true
    → UpTo j (last_or last xs)
contains-UpTo a last [] j climbs e = cc
contains-UpTo a last (x ∷ xs) j (from, below, climbs) e = elim (Bool-cases (eqb_ℤ x j)) [
  | inl same ↦
      UpTo-last (x +ℤ pos 1) x xs j (ground (arith, (eqb_ℤ-iff x j).0 same))
        (omega (arith, +ℤ_parts x (pos 1))) climbs
  | inr other ↦ contains-UpTo (x +ℤ pos 1) (some x) xs j climbs (ground arith)
]

module _ (K : Kernel) (limit : ℤ) where
  -- The list climbs from `m` on and misses no descriptor that was open; nothing was changed.
  abbrev pub AreAll : ℤ → K.World → List ℤ → K.World → Type 0
  AreAll m w fds v =
      Climbs m fds
      × ((j : ℤ)
          → IsInt j
          → m ≤ℤ j
          → j ≤ℤ limit
          → (contains fds j ≡ true) ⊎ (K.getfd j w ≡ negsuc 0))
      × ((j : ℤ) → IsInt j → K.getfd j v ≡ K.getfd j w)

  -- No descriptor from `m` on was open above the result; nothing was changed.
  abbrev pub IsGreatest : ℤ → K.World → Option ℤ → K.World → Type 0
  IsGreatest m w r v =
      ((j : ℤ) → IsInt j → m ≤ℤ j → j ≤ℤ limit → UpTo j r ⊎ (K.getfd j w ≡ negsuc 0))
      × ((j : ℤ) → IsInt j → K.getfd j v ≡ K.getfd j w)

  -- No descriptor lies below the number that the iterator begins with.
  AreAll-clamped :
      (T : IsTable K) (m : ℤ) (w : K.World) (fds : List ℤ) (v : K.World)
      → IsInt m
      → AreAll (clamped m) w fds v
      → AreAll m w fds v
  AreAll-clamped T m w fds v int (climbs, all, table) = (
    Climbs-mono m (clamped m) fds (clamped-bounds m int).2 climbs,
    λ j i from upto. elim (clamped_from K T m j w from) [
      | inl above ↦ all j i above upto
      | inr gone ↦ inr gone
    ],
    table,
  )

  pub AreAll-IsGreatest :
      (m : ℤ) (w : K.World) (fds : List ℤ) (v : K.World)
      → AreAll m w fds v
      → IsGreatest m w (last_or none fds) v
  AreAll-IsGreatest m w fds v (climbs, all, table) = (
    λ j i from upto. elim (all j i from upto) [
      | inl given ↦ inl (contains-UpTo m none fds j climbs given)
      | inr gone ↦ inr gone
    ],
    table,
  )

module _ (target : Target) (K : Kernel) (T : IsTable K) (limit : ℤ) (fuel : ℕ)
    (I : IsIterator target K limit fuel) where
  -- What the iterator opened for itself was not open before.
  pub Collects-AreAll :
      (it : FdIter) (w v : K.World) (fds : List ℤ) (u : K.World)
      → Opened K it w v
      → Collects target K T limit fuel I it v fds u
      → AreAll K limit it.curfd w fds u
  Collects-AreAll it w v fds u opened (climbs, all, table) = (
    climbs,
    λ j i from upto. elim (Bool-cases (owned it j)) [
      | inl own ↦ inr ((opened j i).0 own)
      | inr other ↦ ground (arith, all j i from upto other, (opened j i).1 other)
    ],
    λ j i. elim (Bool-cases (owned it j)) [
      | inl own ↦ (table j i).0 own ∙ sym ((opened j i).0 own)
      | inr other ↦ (table j i).1 other ∙ (opened j i).1 other
    ],
  )

module _ (target : Target) (K : Kernel) (T : IsTable K) (limit : ℤ) (top : ℕ)
    (L : IsBounded target K limit top) (entries : ℕ) (D : IsDirectory K entries) (fuel : ℕ) (m : ℤ)
    (builder : FdIterBuilder) (p : Process K) (opens : Opens K target entries D)
    (enough : entries + suc top ≤ fuel) (int : IsInt m) where
  abbrev iterator : IsIterator target K limit (suc fuel)
  iterator = I target K T limit top L entries D fuel enough

  collected-IsNew :
      (it : FdIter) (q : Process K)
      → IsNew target K T limit top L entries D fuel enough m p it q
      → Returns
          (collected target K (suc fuel) (suc fuel) it q)
          (λ fds u. AreAll K limit m p.world fds u.world)
  collected-IsNew it q (good, at, opened) =
      Returns-mono _ _ (collected target K (suc fuel) (suc fuel) it q)
        (collected-Collects target K T limit (suc fuel) iterator (suc fuel) it q good)
        (λ fds u collects. AreAll-clamped K limit T m p.world fds u.world int (
          subst (λ c. AreAll K limit c p.world fds u.world) at
            (Collects-AreAll target K T limit (suc fuel) iterator it p.world q.world fds u.world
              opened collects)))

  -- Over a kernel and a directory that keep their promises, also on how large a descriptor may be,
  -- on every system, with fuel for the directory's entries and for more rounds than the largest
  -- number `top` that a descriptor may have, and for a `minfd` that is any `c_int`, the
  -- calls of `next` on the iterator of any builder come to an end, and so does the iterator. The
  -- descriptors that they gave ascend strictly, from `minfd` on, below the largest `c_int`; none
  -- that was open from `minfd` on is missing, as far as a number that the clamped soft limit never
  -- falls below; and every descriptor is left as it was, that of the directory too.
  pub collected-AreAll :
      Returns
        ((Builder.iter_from target K m builder >>= collected target K (suc fuel) (suc fuel)) p)
        (λ fds q. AreAll K limit m p.world fds q.world)
  collected-AreAll =
      Returns-bind _ _ (Builder.iter_from target K m builder p) _
        (iter_from-IsNew target K T limit top L entries D fuel enough m p builder opens int)
        collected-IsNew

  -- Over a kernel and a directory that keep their promises, also on how large a descriptor may be,
  -- on every system, with fuel for the directory's entries and for more rounds than the largest
  -- number `top` that a descriptor may have, and for a `minfd` that is any `c_int`, `max`
  -- of the iterator of any builder ends. It leaves every descriptor as it was, that of the
  -- directory too, and no descriptor from `minfd` on was open above the result, or none at all
  -- where there is no result, as far as a number that the clamped soft limit never falls below.
  pub max_fd-IsGreatest :
      Returns
        ((Builder.iter_from target K m builder >>= max_fd target K (suc fuel)) p)
        (λ r q. IsGreatest K limit m p.world r q.world)
  max_fd-IsGreatest =
      Returns-bind _ _ (Builder.iter_from target K m builder p) _
        (iter_from-IsNew target K T limit top L entries D fuel enough m p builder opens int)
        (λ it q new.
          subst (λ o. Returns o (λ r u. IsGreatest K limit m p.world r u.world))
            (sym (max_fd-collected target K (suc fuel) it q))
            (Returns-bind _ _ (collected target K (suc fuel) (suc fuel) it q) _
              (collected-IsNew it q new)
              (λ fds u all. AreAll-IsGreatest K limit m p.world fds u.world all)))
