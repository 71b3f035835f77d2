-- ===== src/CommandClose/Child.antt =====
-- The descriptors that the program in the child inherits (examples/command-close.rs): the whole run.
use close_fds.Base.{
  ℕ, suc, ◌+◌, ◌≤◌, ◌≡◌, ◌≢◌, refl, sym, ◌∙◌, ap, inl, inr, true, false, ◌||◌, some, arith, ℤ, pos,
  ◌≤ℤ◌, ltb_ℤ, eqb_ℤ, eqb_ℤ-iff, IsInt, Action, pure, ◌>>=◌, Returns, Returns-bind, Returns-mono,
  Bool-cases, All, contains,
}
use mathlib.Core.Path.{subst}
use close_fds.Target.{Target}
use close_fds.Kernel.{Kernel}
use close_fds.Kernel.Laws.{IsTable}
use close_fds.Kernel.Effect.{closed}
use close_fds.Kernel.Flags.{with_cloexec, IsFlagTable}
use close_fds.Process.{Process}
use close_fds.Util.Simplify.{IsBelowMax, is_target}
use close_fds.IterFds.FdIter.Limits.{IsBounded}
use close_fds.IterFds.DirFd.Laws.{IsDirectory, Opens}
use close_fds.CloseFds.KeepLoop.Started.{Outcome}
use close_fds.CloseFds.Builder
use close_fds.CloseFds.Builder.{set_fds_cloexec, close_open_fds}
use close_fds.CloseFds.Builder.Whole.{closefrom-Outcome, cloexecfrom-Outcome}
use close_fds.CommandClose.{Calls, is_macos, kept_files, open_files, before_exec, run_child}
use close_fds.CommandClose.Inherited.{is_inherited, marked, IsCalls}
use close_fds.CommandClose.Files.{BothInherited, open_files-BothInherited}

differs : (i j : ℤ) → j ≢ i → eqb_ℤ i j ≡ false
differs i j other = elim (Bool-cases (eqb_ℤ i j)) [
  | inl same ↦ absurd (other (sym ((eqb_ℤ-iff i j).0 same)))
  | inr different ↦ different
]

module _ (K : Kernel) (f1 f3 : ℤ) where
  -- The two files, and of the descriptors from 3 on nothing else up to the limit.
  abbrev pub InheritsOnly : ℤ → K.World → Type 0
  InheritsOnly limit w =
      BothInherited K f1 f3 w
      × ((j : ℤ)
          → IsInt j
          → pos 3 ≤ℤ j
          → j ≤ℤ limit
          → j ≢ f1
          → j ≢ f3
          → is_inherited (K.getfd j w) ≡ false)

  module _ (below1 : IsBelowMax f1) (below3 : IsBelowMax f3) where
    kept_files-below : All IsBelowMax (kept_files f1 f3)
    unfolding kept_files
    kept_files-below = elim (Bool-cases (ltb_ℤ f3 f1)) [
      | inl swap ↦ rw swap (below3, (below1, tt))
      | inr keep ↦ rw keep (below1, (below3, tt))
    ]

    kept_files-contains : (j : ℤ) → contains (kept_files f1 f3) j ≡ (eqb_ℤ f1 j || eqb_ℤ f3 j)
    unfolding kept_files
    kept_files-contains j = ground arith

    -- What the library's function leaves to be inherited, if its effect leaves nothing so.
    Outcome-InheritsOnly :
        (eff : ℤ → ℤ) (limit : ℤ) (w v : K.World)
        → ((flags : ℤ) → is_inherited (eff flags) ≡ false)
        → Outcome K eff limit (is_target (pos 3) (kept_files f1 f3)) w v
        → BothInherited K f1 f3 w
        → InheritsOnly limit v
    Outcome-InheritsOnly eff limit w v hides outcome (inherited1, inherited3) = (
      (
        ap is_inherited (same f1 below1.0 (ground (arith, kept_files-contains f1))) ∙ inherited1,
        ap is_inherited (same f3 below3.0 (ground (arith, kept_files-contains f3))) ∙ inherited3,
      ),
      λ j i from upto other1 other3.
          ap is_inherited
            ((outcome j i).1 (aimed j from (differs f1 j other1) (differs f3 j other3)) upto)
          ∙ hides (K.getfd j w),
    )
      where
        aimed :
            (j : ℤ)
            → pos 3 ≤ℤ j
            → eqb_ℤ f1 j ≡ false
            → eqb_ℤ f3 j ≡ false
            → is_target (pos 3) (kept_files f1 f3) j ≡ true
        aimed j from e1 e3 = ground (arith, kept_files-contains j)

        same :
            (j : ℤ)
            → IsInt j
            → is_target (pos 3) (kept_files f1 f3) j ≡ false
            → K.getfd j v ≡ K.getfd j w
        same j i out = ground (arith, outcome j i, out)

module _ (target : Target) (K : Kernel) (T : IsTable K) (limit : ℤ) (top : ℕ)
    (L : IsBounded target K limit top) (entries : ℕ) (D : IsDirectory K entries)
    (opens : Opens K target entries D) (fuel : ℕ) (enough : entries + suc top ≤ fuel)
    (F : IsFlagTable K) where
  before_exec-InheritsOnly :
      (f1 f3 : ℤ) (p : Process K)
      → IsBelowMax f1
      → IsBelowMax f3
      → BothInherited K f1 f3 p.world
      → Returns
          (before_exec target K (suc fuel) (kept_files f1 f3) p)
          (λ _ q. InheritsOnly K f1 f3 limit q.world)
  unfolding before_exec set_fds_cloexec close_open_fds
  before_exec-InheritsOnly f1 f3 p below1 below3 both = elim (Bool-cases (is_macos target)) [
    | inl marks ↦ rw marks (
        Returns-mono _ _ (set_fds_cloexec target K (suc fuel) (pos 3) (kept_files f1 f3) p)
          (cloexecfrom-Outcome target K T limit top L entries D opens fuel enough F (pos 3)
            (kept_files f1 f3) Builder.new p (omega arith, omega arith)
            (kept_files-below K f1 f3 below1 below3))
          (λ _ q outcome.
            Outcome-InheritsOnly K f1 f3 below1 below3 with_cloexec limit p.world q.world marked
              outcome both))
    | inr closes ↦ rw closes (
        Returns-mono _ _ (close_open_fds target K (suc fuel) (pos 3) (kept_files f1 f3) p)
          (closefrom-Outcome target K T limit top L entries D opens fuel enough (pos 3)
            (kept_files f1 f3) Builder.new p (omega arith, omega arith)
            (kept_files-below K f1 f3 below1 below3))
          (λ _ q outcome.
            Outcome-InheritsOnly K f1 f3 below1 below3 closed limit p.world q.world (λ _. refl)
              outcome both))
  ]

  -- Over a kernel, a directory and calls that keep their promises, also on how large a descriptor
  -- may be, on every system, with fuel for the directory's entries and for more rounds than the
  -- largest number `top` that a descriptor may have, where the three files can be opened, the part
  -- of `main` up to the program that the child runs comes to its end. The program then inherits the
  -- first and the third file, and of the descriptors from 3 on no other, as far as a number that
  -- the clamped soft limit never falls below.
  pub run_child-InheritsOnly :
      (C : Calls K)
      → IsCalls K C
      → (f1 f2 f3 : ℤ) (w1 w2 w3 : K.World) (p : Process K) → C.open_root p.world ≡ some (f1, w1)
      → C.open_root w1 ≡ some (f2, w2)
      → C.open_root w2 ≡ some (f3, w3)
      → Returns
          (run_child target K (suc fuel) C p)
          (λ r q. (r ≡ (f1, f2, f3)) × InheritsOnly K f1 f3 limit q.world)
  unfolding run_child
  run_child-InheritsOnly C I f1 f2 f3 w1 w2 w3 p opened1 opened2 opened3 =
      Returns-bind _ _ (open_files K C p) _
        (open_files-BothInherited K C I f1 f2 f3 w1 w2 w3 p opened1 opened2 opened3)
        (λ r q (same, both).
          subst
            (λ a.
              Returns (rest a q) (λ r' u. (r' ≡ (f1, f2, f3)) × InheritsOnly K f1 f3 limit u.world))
            (sym same)
            (Returns-bind _ _ (before_exec target K (suc fuel) (kept_files f1 f3) q) _
              (before_exec-InheritsOnly f1 f3 q (I.opened_lem f1 p.world w1 opened1).0
                (I.opened_lem f3 w2 w3 opened3).0 both)
              (λ _ u only. (refl, only))))
    where
      rest : ℤ × ℤ × ℤ → Action (Process K) (ℤ × ℤ × ℤ)
      rest (g1, g2, g3) = do
        _ ← before_exec target K (suc fuel) (kept_files g1 g3)
        pure (g1, g2, g3)
