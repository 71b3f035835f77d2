-- ===== src/CloseFds/Builder/Whole.antt =====
-- The public functions of src/closefds/mod.rs as a whole.
use close_fds.Base.{
  ℕ, suc, ◌+◌, ◌≤◌, ◌≡◌, ◌≢◌, sym, ◌∙◌, ap, inl, inr, arith, List, [], ℤ, pos, ◌≤ℤ◌, ltb_ℤ, int_max,
  IsInt, IsSorted, All, All-intro, All-contains, Returns, Returns-mono, Bool-cases,
}
use close_fds.Target.{Target}
use close_fds.Kernel.{Kernel}
use close_fds.Kernel.Laws.{IsTable}
use close_fds.Kernel.Effect.{IsEffect, closed, closed-IsEffect}
use close_fds.Kernel.Flags.{with_cloexec, with_cloexec-IsEffect, IsFlagTable}
use close_fds.Process.{Process}
use close_fds.Util.Simplify.{IsBelowMax, is_target}
use close_fds.IterFds.FdIter.Limits.{IsBounded}
use close_fds.IterFds.DirFd.Laws.{IsDirectory, Opens}
use close_fds.CloseFds.KeepFds
use close_fds.CloseFds.KeepFds.Making.{new-bounds, new_sorted-new}
use close_fds.CloseFds.Request.{IsKept}
use close_fds.CloseFds.KeepLoop.Started.{Outcome}
use close_fds.CloseFds.Close.Whole.{close_fds_from-listed}
use close_fds.CloseFds.CloExec.Whole.{set_fds_cloexec-listed}
use close_fds.CloseFds.Builder.{
  CloseFdsBuilder, clamp_minfd, keep_fds_sorted, keep_fds, closefrom, cloexecfrom,
}

-- What `KeepFds::new` makes tells the truth.
new-IsKept : (fds : List ℤ) → All IsBelowMax fds → IsKept (KeepFds.new fds)
unfolding KeepFds.new
new-IsKept fds below =
    let (same, flag, bounded) =
      new-bounds fds (All-intro IsInt fds (λ fd e. (All-contains IsBelowMax fds fd below e).0)) in
    record { below_max = below; flag = flag; bounded = bounded }

module _ (K : Kernel) (T : IsTable K) (eff : ℤ → ℤ) (E : IsEffect eff) where
  -- No descriptor is negative, so that the clamp leaves out none.
  clamped-Outcome :
      (limit minfd : ℤ) (fds : List ℤ) (w v : K.World)
      → Outcome K eff limit (is_target (clamp_minfd minfd) fds) w v
      → Outcome K eff limit (is_target minfd fds) w v
  unfolding clamp_minfd
  clamped-Outcome limit minfd fds w v outcome j i = elim (Bool-cases (ltb_ℤ j (pos 0))) [
    | inl neg ↦
        let before = T.getfd-neg j w (ground arith) in
        let after = T.getfd-neg j v (ground arith) in
        let none_there : K.getfd j v ≡ eff (K.getfd j w) = after ∙ sym (ap eff before ∙ E.absent) in
        (inl (after ∙ sym before), λ t le. none_there)
    | inr fd ↦
        let same : is_target (clamp_minfd minfd) fds j ≡ is_target minfd fds j = ground arith in
        (ground (arith, outcome j i), λ t le. (outcome j i).1 (same ∙ t) le)
  ]

module _ (target : Target) (K : Kernel) (T : IsTable K) (limit : ℤ) (top : ℕ)
    (L : IsBounded target K limit top) (entries : ℕ) (D : IsDirectory K entries)
    (opens : Opens K target entries D) (fuel : ℕ) (enough : entries + suc top ≤ fuel) where
  clamp_minfd-bounds :
      (minfd : ℤ) → IsInt minfd → (pos 0 ≤ℤ clamp_minfd minfd) × (clamp_minfd minfd ≤ℤ int_max)
  unfolding clamp_minfd
  clamp_minfd-bounds minfd int = (ground arith, ground (arith, int))

  -- Over a kernel and a directory that keep their promises, also on how large a descriptor may be,
  -- on every system, with fuel for the directory's entries and for more rounds than the largest
  -- number `top` that a descriptor may have, for a list of numbers below the largest `c_int`, in
  -- any order, and any `minfd` that is a `c_int`, `closefrom` of a builder that was given the list
  -- ends, whatever else was set on the builder: nothing but descriptors from `minfd` on that are
  -- not in the list was closed, and these all up to any number that the clamped soft limit never
  -- falls below.
  pub closefrom-Outcome :
      (minfd : ℤ) (fds : List ℤ) (builder : CloseFdsBuilder) (p : Process K)
      → IsInt minfd
      → All IsBelowMax fds
      → Returns
          (closefrom target K (suc fuel) minfd (keep_fds fds builder) p)
          (λ _ q. Outcome K closed limit (is_target minfd fds) p.world q.world)
  unfolding closefrom keep_fds
  closefrom-Outcome minfd fds builder p int below =
      let (low, high) = clamp_minfd-bounds minfd int in
      Returns-mono _ _ (closefrom target K (suc fuel) minfd (keep_fds fds builder) p)
        (close_fds_from-listed target K T limit top L entries D fuel (clamp_minfd minfd)
          (KeepFds.new fds) builder.it p opens enough (new-IsKept fds below) low high)
        (λ _ q outcome.
          clamped-Outcome K T closed closed-IsEffect limit minfd fds p.world q.world outcome)

  -- Over a kernel and a directory that keep their promises, also on how large a descriptor may be,
  -- on every system, with fuel for the directory's entries and for more rounds than the largest
  -- number `top` that a descriptor may have, for a list of numbers below the largest `c_int`, in
  -- any order, and any `minfd` that is a `c_int`, `cloexecfrom` of a builder that was given the
  -- list ends, whatever else was set on the builder: nothing but the close-on-exec flags of
  -- descriptors from `minfd` on that are not in the list was changed, and these are set on all that
  -- are open up to any number that the clamped soft limit never falls below.
  pub cloexecfrom-Outcome :
      IsFlagTable K
      → (minfd : ℤ) (fds : List ℤ) (builder : CloseFdsBuilder) (p : Process K) → IsInt minfd
      → All IsBelowMax fds
      → Returns
          (cloexecfrom target K (suc fuel) minfd (keep_fds fds builder) p)
          (λ _ q. Outcome K with_cloexec limit (is_target minfd fds) p.world q.world)
  unfolding cloexecfrom keep_fds
  cloexecfrom-Outcome F minfd fds builder p int below =
      let (low, high) = clamp_minfd-bounds minfd int in
      Returns-mono _ _ (cloexecfrom target K (suc fuel) minfd (keep_fds fds builder) p)
        (set_fds_cloexec-listed target K T F limit top L entries D fuel (clamp_minfd minfd)
          (KeepFds.new fds) builder.it p opens enough (new-IsKept fds below) low high)
        (λ _ q outcome.
          clamped-Outcome K T with_cloexec with_cloexec-IsEffect limit minfd fds p.world q.world
            outcome)

-- For a sorted list of numbers that is not empty, `keep_fds_sorted` sets a builder up as `keep_fds` does, so
-- that `closefrom` and `cloexecfrom` do the same on every system.
pub keep_fds_sorted-keep_fds :
    (target : Target) (K : Kernel) (fuel : ℕ) (minfd : ℤ) (fds : List ℤ) (builder : CloseFdsBuilder)
    → fds ≢ []
    → All IsInt fds
    → IsSorted fds
    → (closefrom target K fuel minfd (keep_fds_sorted fds builder)
        ≡ closefrom target K fuel minfd (keep_fds fds builder))
      × (cloexecfrom target K fuel minfd (keep_fds_sorted fds builder)
          ≡ cloexecfrom target K fuel minfd (keep_fds fds builder))
unfolding keep_fds keep_fds_sorted
keep_fds_sorted-keep_fds target K fuel minfd fds builder some_fd ints up =
    let same : keep_fds_sorted fds builder ≡ keep_fds fds builder =
      ap (λ k. record builder { keep = k }) (new_sorted-new fds some_fd ints up) in
    (ap (closefrom target K fuel minfd) same, ap (cloexecfrom target K fuel minfd) same)
