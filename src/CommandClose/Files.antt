-- ===== src/CommandClose/Files.antt =====
-- Opening the files that the child shall inherit (examples/command-close.rs).
use close_fds.Base.{
  ◌≡◌, ◌⊎◌, refl, sym, ◌∙◌, ap, inl, inr, true, some, if◌then◌else◌, arith, ℤ, pos, ◌≤ℤ◌, eqb_ℤ,
  eqb_ℤ-iff, Returns, Returns-bind, Bool-cases,
}
use mathlib.Core.Path.{subst}
use close_fds.Kernel.{Kernel}
use close_fds.Process.{Process}
use close_fds.CommandClose.{Calls, unset_cloexec, open_file, open_files}
use close_fds.CommandClose.Inherited.{is_inherited, left, unmarked, IsCalls, unset_cloexec-left}

module _ (K : Kernel) (f1 f3 : ℤ) where
  abbrev pub BothInherited : K.World → Type 0
  BothInherited w = (is_inherited (K.getfd f1 w) ≡ true) × (is_inherited (K.getfd f3 w) ≡ true)

module _ (K : Kernel) (C : Calls K) (I : IsCalls K C) where
  -- The effect of `unset_cloexec`.
  abbrev Unset : ℤ → K.World → K.World → Type 0
  Unset fd w v = (j : ℤ) → K.getfd j v ≡ (if eqb_ℤ fd j then left (K.getfd j w) else K.getfd j w)

  Unset-live :
      (fd j : ℤ) (w v : K.World) → Unset fd w v → pos 0 ≤ℤ K.getfd j w → pos 0 ≤ℤ K.getfd j v
  Unset-live fd j w v unset live = ground (arith, unset j)

  -- A descriptor that is inherited stays so, and that of the file becomes so.
  Unset-is_inherited :
      (fd j : ℤ) (w v : K.World)
      → Unset fd w v
      → pos 0 ≤ℤ K.getfd j w
      → (eqb_ℤ fd j ≡ true) ⊎ (is_inherited (K.getfd j w) ≡ true)
      → is_inherited (K.getfd j v) ≡ true
  Unset-is_inherited fd j w v unset live why = elim (Bool-cases (eqb_ℤ fd j)) [
    | inl same ↦
        let flags : K.getfd j v ≡ left (K.getfd j w) = ground (arith, unset j) in
        ap is_inherited flags ∙ unmarked (K.getfd j w) live
    | inr other ↦ ground (arith, unset j, why, other)
  ]

  open_file-some :
      (p : Process K) (fd : ℤ) (w : K.World)
      → C.open_root p.world ≡ some (fd, w)
      → open_file K C p ≡ some (fd, record p { world = w })
  unfolding open_file
  open_file-some p fd w e = rw (open_file, e) refl

  module _ (f1 f2 f3 : ℤ) (w1 w2 w3 : K.World) (p : Process K)
      (opened1 : C.open_root p.world ≡ some (f1, w1)) (opened2 : C.open_root w1 ≡ some (f2, w2))
      (opened3 : C.open_root w2 ≡ some (f3, w3)) where
    live3 : pos 0 ≤ℤ K.getfd f3 w3
    live3 = (I.opened_lem f3 w2 w3 opened3).1

    live2 : pos 0 ≤ℤ K.getfd f2 w3
    live2 =
        let live = (I.opened_lem f2 w1 w2 opened2).1 in
        subst (λ n. pos 0 ≤ℤ n) (sym (I.others_lem f3 f2 w2 w3 opened3 live)) live

    live1 : pos 0 ≤ℤ K.getfd f1 w3
    live1 =
        let live = (I.opened_lem f1 p.world w1 opened1).1 in
        let same = I.others_lem f2 f1 w1 w2 opened2 live in
        let live' = subst (λ n. pos 0 ≤ℤ n) (sym same) live in
        subst (λ n. pos 0 ≤ℤ n) (sym (I.others_lem f3 f1 w2 w3 opened3 live')) live'

    abbrev opened : K.World → Process K
    opened w = record p { world = w }

    -- The three calls of `unset_cloexec`, one after the other.
    files_ready :
        (v1 v2 v3 : K.World)
        → Unset f1 w3 v1
        → Unset f2 v1 v2
        → Unset f3 v2 v3
        → BothInherited K f1 f3 v3
    files_ready v1 v2 v3 u1 u2 u3 =
        let at1 : pos 0 ≤ℤ K.getfd f1 v1 = Unset-live f1 f1 w3 v1 u1 live1 in
        let at2 : pos 0 ≤ℤ K.getfd f1 v2 = Unset-live f2 f1 v1 v2 u2 at1 in
        let own1 = Unset-is_inherited f1 f1 w3 v1 u1 live1 (inl ((eqb_ℤ-iff f1 f1).1 refl)) in
        let own2 = Unset-is_inherited f2 f1 v1 v2 u2 at1 (inr own1) in
        let live = Unset-live f2 f3 v1 v2 u2 (Unset-live f1 f3 w3 v1 u1 live3) in
        (
          Unset-is_inherited f3 f1 v2 v3 u3 at2 (inr own2),
          Unset-is_inherited f3 f3 v2 v3 u3 live (inl ((eqb_ℤ-iff f3 f3).1 refl)),
        )

    pub open_files-BothInherited :
        Returns (open_files K C p) (λ r q. (r ≡ (f1, f2, f3)) × BothInherited K f1 f3 q.world)
    unfolding open_files
    open_files-BothInherited =
        rw
          (
            open_file-some p f1 w1 opened1,
            open_file-some (opened w1) f2 w2 opened2,
            open_file-some (opened w2) f3 w3 opened3,
          )
          (Returns-bind _ _ (unset_cloexec K C f1 (opened w3)) _
            ((unset_cloexec-left K C I f1 (opened w3)).0 live1)
            (λ _ q1 u1.
              Returns-bind _ _ (unset_cloexec K C f2 q1) _
                ((unset_cloexec-left K C I f2 q1).0 (Unset-live f1 f2 w3 q1.world u1 live2))
                (λ _ q2 u2.
                  Returns-bind _ _ (unset_cloexec K C f3 q2) _
                    ((unset_cloexec-left K C I f3 q2).0 (
                      Unset-live f2 f3 q1.world q2.world u2
                        (Unset-live f1 f3 w3 q1.world u1 live3)))
                    (λ _ q3 u3. (refl, files_ready q1.world q2.world q3.world u1 u2 u3)))))
