-- ===== src/IterFds/Tests/Files/Around.antt =====
-- About a test of src/iterfds/mod.rs that runs before and after ten files are opened: the descriptors.
use close_fds.Base.{
  ◌≤ℤ◌, ℕ, zero, suc, true, false, List, [], ◌∷◌, ℤ, pos, negsuc, leb_ℤ, eqb_ℤ, Action, ◌>>=◌,
  contains, ◌≡◌, refl, if◌then◌else◌, Returns, Returns-bind, Returns-mono, arith, ◌∙◌, ap, sym,
  Bool-cases, inl, inr, eqb_ℤ-iff,
}
use close_fds.Target.{Target}
use close_fds.Kernel.{Kernel}
use close_fds.Kernel.Laws.{IsTable}
use close_fds.Kernel.Opening.{SameTable, IsOpening}
use close_fds.Process.{Process, check_that-true}
use close_fds.IterFds.FdIter.{FdIter}
use close_fds.IterFds.Builder
use close_fds.IterFds.Builder.{FdIterBuilder}
use close_fds.IterFds.Tests.Files.{open_each, open_files, close_files, test_both, test_around}

module _ (K : Kernel) (T : IsTable K) where
  -- The descriptors in a list were closed, and no other has changed.
  abbrev Added : List ℤ → K.World → K.World → Type 0
  Added fds w v =
      (j : ℤ)
      → (contains fds j ≡ true → K.getfd j w ≡ negsuc 0)
        × (contains fds j ≡ false → K.getfd j v ≡ K.getfd j w)

  Added-more :
      (fd : ℤ) (fds : List ℤ) (w u v : K.World)
      → K.getfd fd w ≡ negsuc 0
      → pos 0 ≤ℤ K.getfd fd u
      → ((j : ℤ) → eqb_ℤ fd j ≡ false → K.getfd j u ≡ K.getfd j w)
      → Added fds u v
      → Added (fd ∷ fds) w v
  Added-more fd fds w u v fresh live others added j = elim (Bool-cases (eqb_ℤ fd j)) [
    | inl same ↦
        let at : fd ≡ j = (eqb_ℤ-iff fd j).0 same in
        let fresh' : K.getfd j w ≡ negsuc 0 = ap (λ i. K.getfd i w) (sym at) ∙ fresh in
        ((λ e. fresh'), (λ e. absurd (ground (arith, same, e))))
    | inr other ↦ (
      (λ e. sym (others j other) ∙ (added j).0 (ground (arith, e, other))),
      (λ e. (added j).1 (ground (arith, e, other)) ∙ others j other),
    )
  ]

  open_each-Added :
      (open_root : K.World → ℤ × K.World) (O : IsOpening K open_root) (n : ℕ) (p : Process K)
      → O.Room n p.world
      → Returns (open_each K open_root n p) (λ fds q. Added fds p.world q.world)
  unfolding open_each
  open_each-Added open_root O zero p room = λ j. ((λ e. cc), (λ e. refl))
  open_each-Added open_root O (suc n) p room =
      let ((from, fresh, live, unmarked, others), room') = O.open_lem n p.world room in
      let fd = (open_root p.world).0 in
      let p' : Process K = record p { world = (open_root p.world).1 } in
      rw (check_that-true (leb_ℤ (pos 0) fd) p' (ground arith)) (
        Returns-bind _ _ (open_each K open_root n p') _ (open_each-Added open_root O n p' room')
          (λ fds q added. Added-more fd fds p.world p'.world q.world fresh live others added))

  close_files-lem :
      (fds : List ℤ) (p : Process K)
      → Returns (close_files K fds p) (λ _ q.
        (j : ℤ) → K.getfd j q.world ≡ (if contains fds j then negsuc 0 else K.getfd j p.world))
  unfolding close_files
  close_files-lem [] p = λ j. refl
  close_files-lem (fd ∷ fds) p =
      let p' : Process K = record p { world = K.close fd p.world } in
      Returns-mono _ _ (close_files K fds p') (close_files-lem fds p')
        (λ _ q closes j. ground (arith, closes j, T.getfd-close fd j p.world))

module _ (target : Target) (K : Kernel) (T : IsTable K) (open_root : K.World → ℤ × K.World)
    (O : IsOpening K open_root) (test : FdIter → Action (Process K) (Unit {0}))
    (passes : (builder : FdIterBuilder) (p : Process K)
      → Returns
          ((Builder.iter_from target K (pos 0) builder >>= test) p)
          (λ _ q. SameTable K p.world q.world))
    (fuel : ℕ) where
  test_both-SameTable :
      (builder : FdIterBuilder) (p : Process K)
      → Returns
          (test_both target K open_root fuel test builder p)
          (λ _ q. SameTable K p.world q.world)
  unfolding test_both
  test_both-SameTable builder p =
      let first = Builder.threadsafe target false builder in
      let second = Builder.threadsafe target true builder in
      Returns-bind _ _ ((Builder.iter_from target K (pos 0) first >>= test) p) _ (passes first p)
        (λ _ q same.
          Returns-mono _ _ ((Builder.iter_from target K (pos 0) second >>= test) q)
            (passes second q) (λ _ u same' j int. same' j int ∙ same j int))

  pub test_around-SameTable :
      (builder : FdIterBuilder) (p : Process K)
      → O.Room 10 p.world
      → Returns
          (test_around target K open_root fuel test builder p)
          (λ _ q. SameTable K p.world q.world)
  unfolding test_around open_files
  test_around-SameTable builder p room =
      Returns-bind _ _ (test_both target K open_root fuel test builder p) _
        (test_both-SameTable builder p)
        (λ _ q same.
          Returns-bind _ _ (open_each K open_root 10 q) _
            (open_each-Added K T open_root O 10 q (O.room_lem 10 p.world q.world same room))
            (λ fds r added.
              Returns-bind _ _ (test_both target K open_root fuel test builder r) _
                (test_both-SameTable builder r)
                (λ _ t same'.
                  Returns-mono _ _ (close_files K fds t) (close_files-lem K T fds t)
                    (λ _ u closes j int.
                      ground (arith, closes j, same' j int, added j, same j int)))))
