-- ===== src/IterFds/Collected/Greatest.antt =====
-- `max` of an iterator that a builder makes without `possible` (src/iterfds/fditer.rs).
use close_fds.Base.{
  ℕ, suc, ◌+◌, ◌≤◌, ◌≡◌, sym, inl, inr, Bool-cases, true, false, Option, none, some, List, [], ◌∷◌,
  arith, ℤ, pos, ◌≤ℤ◌, ◌<ℤ◌, ◌+ℤ◌, +ℤ_parts, eqb_ℤ, eqb_ℤ-iff, int_max, IsInt, bind, ◌>>=◌, Returns,
  Returns-bind, contains,
}
use mathlib.Core.Path.{subst}
use close_fds.Target.{Target}
use close_fds.Kernel.{Kernel}
use close_fds.Kernel.Laws.{IsTable}
use close_fds.Process.{Process}
use close_fds.IterFds.FdIter.{FdIter, max_fd}
use close_fds.IterFds.Builder
use close_fds.IterFds.Builder.{FdIterBuilder}
use close_fds.IterFds.DirFd.Laws.{IsDirectory, Opens}
use close_fds.IterFds.DirFd.Exact.{IsExact}
use close_fds.IterFds.FdIter.Limits.{IsBounded}
use close_fds.IterFds.Collected.{Climbs, last_or, collected, max_fd-collected}
use close_fds.IterFds.Collected.Whole.{AreAll, IsGreatest, AreAll-IsGreatest}
use close_fds.IterFds.Collected.Exact.{collected-exactly_open}

-- What holds of the result, if there is one.
abbrev pub IfSome : (ℤ → Type 0) → Option ℤ → Type 0
IfSome P none = Unit
IfSome P (some fd) = P fd

IfSome-last :
    (P : ℤ → Type 0) (last : Option ℤ) (fds : List ℤ)
    → IfSome P last
    → ((j : ℤ) → contains fds j ≡ true → P j)
    → IfSome P (last_or last fds)
IfSome-last P last [] h all = h
IfSome-last P last (x ∷ xs) h all =
    IfSome-last P (some x) xs (all x (ground arith)) (λ j e. all j (ground (arith, e)))

Climbs-contains :
    (a : ℤ) (fds : List ℤ) (j : ℤ)
    → Climbs a fds
    → contains fds j ≡ true
    → (a ≤ℤ j) × (j <ℤ int_max)
Climbs-contains a [] j climbs e = cc
Climbs-contains a (x ∷ xs) j (from, below, climbs) e = elim (Bool-cases (eqb_ℤ x j)) [
  | inl same ↦
      let at : x ≡ j = (eqb_ℤ-iff x j).0 same in
      subst (λ i. (a ≤ℤ i) × (i <ℤ int_max)) at (from, below)
  | inr other ↦
      let (above, lt) = Climbs-contains (x +ℤ pos 1) xs j climbs (ground (arith, e, other)) in
      (omega (arith, +ℤ_parts x (pos 1)), lt)
]

module _ (K : Kernel) (limit : ℤ) where
  -- The result was open, from `m` on; no descriptor from `m` on was open above it, or none at all
  -- without a result; nothing was changed.
  abbrev pub IsGreatestOpen : ℤ → K.World → Option ℤ → K.World → Type 0
  IsGreatestOpen m w r v =
      IfSome (λ fd. (m ≤ℤ fd) × (pos 0 ≤ℤ K.getfd fd w)) r × IsGreatest K limit m w r v

  last-IsGreatestOpen :
      (m : ℤ) (w : K.World) (fds : List ℤ) (v : K.World)
      → IsInt m
      → AreAll K limit m w fds v
      → ((j : ℤ) → IsInt j → contains fds j ≡ true → pos 0 ≤ℤ K.getfd j w)
      → IsGreatestOpen m w (last_or none fds) v
  last-IsGreatestOpen m w fds v int all opened = (
    IfSome-last (λ fd. (m ≤ℤ fd) × (pos 0 ≤ℤ K.getfd fd w)) none fds tt
        (λ j e.
          let (from, below) = Climbs-contains m fds j all.0 e in
          (from, opened j (omega (arith, from, below, int)) e)),
    AreAll-IsGreatest K limit m w fds v all,
  )

module _ (target : Target) (K : Kernel) (T : IsTable K) (limit : ℤ) (top : ℕ)
    (L : IsBounded target K limit top) (entries : ℕ) (D : IsDirectory K entries)
    (X : IsExact K entries D) (fuel : ℕ) (m : ℤ) (builder : FdIterBuilder) (p : Process K)
    (opens : Opens K target entries D) (enough : entries + suc top ≤ fuel) (int : IsInt m)
    (sure : builder.possible ≡ false) where
  -- What `max` gives, from what `collect` gives.
  last_of :
      (P : List ℤ → Process K → Type 0) (Q : Option ℤ → Process K → Type 0)
      (o : Option (FdIter × Process K))
      → ((fds : List ℤ) (q : Process K) → P fds q → Q (last_or none fds) q)
      → Returns (bind o (collected target K (suc fuel) (suc fuel))) P
      → Returns (bind o (max_fd target K (suc fuel))) Q
  last_of P Q none last h = absurd h
  last_of P Q (some (it, q)) last h =
      subst (λ o. Returns o Q) (sym (max_fd-collected target K (suc fuel) it q))
        (Returns-bind P Q (collected target K (suc fuel) (suc fuel) it q) _ h last)

  -- Over a kernel and a directory that keep their promises, also on how large a descriptor may be
  -- and that the directory names only open descriptors, on every system, with fuel for the
  -- directory's entries and for more rounds than the largest number `top` that a descriptor may
  -- have, for a `minfd` that is any `c_int` and a builder without `possible`, `max` ends. A
  -- result was open, and is not below `minfd`; no descriptor from `minfd` on was open above it, or
  -- none at all where there is no result, as far as a number that the clamped soft limit never falls
  -- below; and every descriptor is left as it was, that of the directory too.
  pub max_fd-IsGreatestOpen :
      Returns
        ((Builder.iter_from target K m builder >>= max_fd target K (suc fuel)) p)
        (λ r q. IsGreatestOpen K limit m p.world r q.world)
  max_fd-IsGreatestOpen =
      last_of _ _ (Builder.iter_from target K m builder p)
        (λ fds q (all, opened). last-IsGreatestOpen K limit m p.world fds q.world int all opened)
        (collected-exactly_open target K T limit top L entries D X fuel m builder p opens enough int
          sure)
