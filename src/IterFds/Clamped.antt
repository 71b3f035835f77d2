-- ===== src/IterFds/Clamped.antt =====
-- `FdIterBuilder::iter_from` of src/iterfds/mod.rs takes a negative `minfd` for 0.
use close_fds.Base.{
  ℕ, suc, ◌+◌, ◌≤◌, ◌≡◌, refl, ◌⊎◌, inl, inr, arith, ℤ, pos, negsuc, ◌≤ℤ◌, ltb_ℤ, int_max, IsInt,
  if◌then◌else◌, Bool-cases, Returns,
}
use mathlib.Core.Path.{subst}
use close_fds.Target.{Target}
use close_fds.Kernel.{Kernel}
use close_fds.Kernel.Laws.{IsTable}
use close_fds.Process.{Process}
use close_fds.IterFds.Builder
use close_fds.IterFds.Builder.{FdIterBuilder}
use close_fds.IterFds.DirFd.Laws.{IsDirectory, Opens}
use close_fds.IterFds.FdIter.{FdIter}
use close_fds.IterFds.FdIter.Limits.{IsBounded}
use close_fds.IterFds.Contract.{IsIterator}
use close_fds.IterFds.Listed.Kept.{listed-IsIterator}
use close_fds.CloseFds.KeepLoop.Started.{Opened}
use close_fds.CloseFds.KeepLoop.Listed.{listed-Starts}

abbrev pub clamped : ℤ → ℤ
clamped m = if ltb_ℤ m (pos 0) then pos 0 else m

pub clamped-bounds :
    (m : ℤ) → IsInt m → (pos 0 ≤ℤ clamped m) × (clamped m ≤ℤ int_max) × (m ≤ℤ clamped m)
clamped-bounds m int = (ground (arith, int), ground (arith, int), ground (arith, int))

-- What lies between is not open.
pub clamped_from :
    (K : Kernel) (T : IsTable K) (m j : ℤ) (w : K.World)
    → m ≤ℤ j
    → (clamped m ≤ℤ j) ⊎ (K.getfd j w ≡ negsuc 0)
clamped_from K T m j w from = elim (Bool-cases (ltb_ℤ j (pos 0))) [
  | inl neg ↦ inr (T.getfd-neg j w (ground arith))
  | inr fd ↦ inl (ground arith)
]

iter_from-clamped :
    (target : Target) (K : Kernel) (m : ℤ) (builder : FdIterBuilder)
    → Builder.iter_from target K (clamped m) builder ≡ Builder.iter_from target K m builder
unfolding Builder.iter_from
iter_from-clamped target K m builder = elim (Bool-cases (ltb_ℤ m (pos 0))) [
  | inl neg ↦ rw neg refl
  | inr fd ↦ rw (fd, fd) refl
]

module _ (target : Target) (K : Kernel) (T : IsTable K) (limit : ℤ) (top : ℕ)
    (L : IsBounded target K limit top) (entries : ℕ) (D : IsDirectory K entries) (fuel : ℕ)
    (enough : entries + suc top ≤ fuel) where
  -- The interface that the iterator of a builder fills.
  abbrev pub I : IsIterator target K limit (suc fuel)
  I = listed-IsIterator target K T limit top L entries D fuel (omega arith)

  module _ (m : ℤ) (p : Process K) where
    -- A new iterator, and the state in which it is.
    abbrev pub IsNew : FdIter → Process K → Type 0
    IsNew it q = I.Good (suc fuel) it q.world × (it.curfd ≡ clamped m) × Opened K it p.world q.world

    pub iter_from-IsNew :
        (builder : FdIterBuilder)
        → Opens K target entries D
        → IsInt m
        → Returns (Builder.iter_from target K m builder p) IsNew
    iter_from-IsNew builder opens int =
        let (low, high, over) = clamped-bounds m int in
        subst (λ f. Returns (f p) IsNew) (iter_from-clamped target K m builder)
          (listed-Starts target K T limit top L entries D fuel enough builder opens (clamped m) p
            low high)
