-- ===== src/IterFds/Steps.antt =====
-- The parts of a loop over an iterator: one descriptor is changed or kept, and at the end the iterator is
-- dropped. Each is a first part of the work that `Done` describes.
use close_fds.Base.{
  ◌≡◌, refl, sym, ◌∙◌, ap, ◌⊎◌, inl, inr, Bool, true, false, true≢false, arith, ℤ, pos, negsuc,
  ◌≤ℤ◌, ◌<ℤ◌, eqb_ℤ, eqb_ℤ-iff, leb_ℤ, Returns, ℤ-trichotomy, Bool-cases, Option-cases,
}
use mathlib.Core.Path.{subst}
use close_fds.Target.{Target}
use close_fds.Kernel.{Kernel}
use close_fds.Kernel.Laws.{IsTable}
use close_fds.Kernel.Effect.{IsEffect, closed, ChangesExactly}
use close_fds.Process.{Process}
use close_fds.IterFds.FdIter
use close_fds.IterFds.FdIter.{FdIter}
use close_fds.IterFds.Contract.{owned, Done, Begun, Passed, Drained, Handed}

module _ (target : Target) (K : Kernel) (T : IsTable K) (limit : ℤ) where
  -- The end of an iterator closes the descriptor of its directory.
  pub drop_fd_iter-ChangesExactly :
      (it : FdIter) (p : Process K)
      → Returns
          (FdIter.drop_fd_iter target K it p)
          (λ _ q. ChangesExactly K closed (owned it) p.world q.world)
  unfolding FdIter.drop_fd_iter
  drop_fd_iter-ChangesExactly it p = elim (Option-cases it.dirfd_iter) [
    | inl e ↦ rw e (λ j i. refl)
    | inr (d, e) ↦ rw e (elim (Bool-cases (leb_ℤ (pos 0) d.dirfd)) [
      | inl live ↦ rw live (λ j i. T.getfd-close d.dirfd j p.world)
      | inr gone ↦ rw gone (λ j i. ground (arith, T.getfd-neg j p.world))
    ])
  ]

  module _ (eff : ℤ → ℤ) (E : IsEffect eff) (it it' : FdIter) (P P' : ℤ → Bool)
      (w v : K.World) where
    -- The descriptor `fd` is changed.
    pub Begun-change :
        (fd : ℤ) (u : K.World)
        → Handed target K limit it it' w v
        → Passed target K limit it fd w
        → P fd ≡ true
        → ((j : ℤ) → P j ≡ true → it.curfd ≤ℤ j)
        → ((j : ℤ) → P' j ≡ true → P j ≡ true)
        → ((j : ℤ) → P j ≡ true → fd <ℤ j → P' j ≡ true)
        → ChangesExactly K eff (eqb_ℤ fd) v u
        → Begun K eff limit (owned it) P (owned it') P' w u
    Begun-change fd u handed passed hit from within rest changed j i = (
      λ o. ground (arith, handed j i, changed j i, E.absent),
      (handed j i).1,
      within j,
      λ o. (same o, left o),
    )
      where
        here : eqb_ℤ fd j ≡ true → owned it j ≡ false → K.getfd j u ≡ eff (K.getfd j w)
        here e o = ground (arith, changed j i, handed j i)

        alike : eqb_ℤ fd j ≡ false → owned it j ≡ false → K.getfd j u ≡ K.getfd j w
        alike e o = ground (arith, changed j i, handed j i)

        same :
            owned it j ≡ false
            → (K.getfd j u ≡ K.getfd j w) ⊎ ((P j ≡ true) × (K.getfd j u ≡ eff (K.getfd j w)))
        same o = elim (Bool-cases (eqb_ℤ fd j)) [
          | inl e ↦ inr (subst (λ k. P k ≡ true) ((eqb_ℤ-iff fd j).0 e) hit, here e o)
          | inr e ↦ inl (alike e o)
        ]

        missed : K.getfd j w ≡ negsuc 0 → K.getfd j w ≡ eff (K.getfd j w)
        missed e = e ∙ sym E.absent ∙ ap eff (sym e)

        left :
            owned it j ≡ false
            → P j ≡ true
            → j ≤ℤ limit
            → (P' j ≡ true) ⊎ (K.getfd j u ≡ eff (K.getfd j w))
        left o t le = elim (ℤ-trichotomy j fd) [
          | inl before ↦ inr (alike (ground arith) o ∙ missed (passed j (from j t) before le o))
          | inr (inl same_fd) ↦ inr (here ((eqb_ℤ-iff fd j).1 (sym same_fd)) o)
          | inr (inr after) ↦ inl (rest j t after)
        ]

    -- The iterator has come to `fd`, about which nothing is done yet.
    pub Begun-Passed :
        (fd : ℤ)
        → Handed target K limit it it' w v
        → Passed target K limit it fd w
        → ((j : ℤ) → P j ≡ true → it.curfd ≤ℤ j)
        → ((j : ℤ) → P' j ≡ true → P j ≡ true)
        → ((j : ℤ) → P j ≡ true → fd ≤ℤ j → P' j ≡ true)
        → Begun K eff limit (owned it) P (owned it') P' w v
    Begun-Passed fd handed passed from within rest j i =
        ((handed j i).0, (handed j i).1, within j, λ o. (inl ((handed j i).2 o), left o))
      where
        left :
            owned it j ≡ false
            → P j ≡ true
            → j ≤ℤ limit
            → (P' j ≡ true) ⊎ (K.getfd j v ≡ eff (K.getfd j w))
        left o t le = elim (Bool-cases (leb_ℤ fd j)) [
          | inl after ↦ inl (rest j t (ground arith))
          | inr before ↦
              let gone = passed j (from j t) (ground arith) le o in
              inr ((handed j i).2 o ∙ gone ∙ sym E.absent ∙ ap eff (sym gone))
        ]

    -- The descriptor `fd` is kept.
    pub Begun-keep :
        (fd : ℤ)
        → Handed target K limit it it' w v
        → Passed target K limit it fd w
        → P fd ≡ false
        → ((j : ℤ) → P j ≡ true → it.curfd ≤ℤ j)
        → ((j : ℤ) → P' j ≡ true → P j ≡ true)
        → ((j : ℤ) → P j ≡ true → fd <ℤ j → P' j ≡ true)
        → Begun K eff limit (owned it) P (owned it') P' w v
    Begun-keep fd handed passed miss from within rest =
        Begun-Passed fd handed passed from within (λ j t le. elim (ℤ-trichotomy j fd) [
          | inl before ↦ absurd (omega arith)
          | inr (inl here) ↦ absurd (true≢false (sym t ∙ subst (λ k. P k ≡ false) (sym here) miss))
          | inr (inr after) ↦ rest j t after
        ])

    pub Done-drop :
        (u : K.World)
        → Handed target K limit it it' w v
        → Drained target K limit it w
        → ((j : ℤ) → P j ≡ true → it.curfd ≤ℤ j)
        → ChangesExactly K closed (owned it') v u
        → Done K eff limit (owned it) P w u
    Done-drop u handed drained from drop j i = (
      λ o. ground (arith, handed j i, drop j i),
      λ o. (
        ground (arith, handed j i, drop j i),
        λ t le. ground (arith, handed j i, drop j i, drained j (from j t) le o, E.absent),
      ),
    )
