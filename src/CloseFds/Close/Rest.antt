-- ===== src/CloseFds/Close/Rest.antt =====
-- `close_rest` of src/closefds/close.rs: it closes every descriptor from the given one on.
use close_fds.Base.{
  ℕ, ◌≡◌, ◌≢◌, sym, ◌∙◌, inl, inr, true, false, true≢false, ◌&&◌, arith, ℤ, pos, eqb_ℤ, eqb_ℤ-iff,
  leb_ℤ, uint_max, as_uint, ◌>>◌, Returns, Returns-bind, Bool-cases,
}
use close_fds.Target.{Target, has_closefrom, is_linux}
use close_fds.Kernel.{Kernel}
use close_fds.Kernel.Laws.{IsTable}
use close_fds.Kernel.Effect.{closed, closed-IsEffect}
use close_fds.IterFds.FdIter
use close_fds.IterFds.FdIter.{FdIter}
use close_fds.IterFds.Contract.{owned, Done, IsIterator}
use close_fds.IterFds.Steps.{drop_fd_iter-ChangesExactly}
use close_fds.IterFds.Loops.{for_each}
use close_fds.IterFds.Loops.Each.{Acts, first_each-Done, refused-Done, range-Done}
use close_fds.CloseFds.KeepLoop.Refine.{Rests}
use close_fds.CloseFds.Close.{close_fd, close_rest}

module _ (target : Target) (K : Kernel) (T : IsTable K) (limit : ℤ) (fuel : ℕ)
    (I : IsIterator target K limit fuel) where
  pub close_fd-Acts : Acts target K T limit fuel I closed closed-IsEffect (close_fd K)
  unfolding close_fd
  close_fd-Acts rounds it p fd good isfd foreign =
      let good' = I.close_lem rounds it p.world fd good foreign in
      (λ j i. T.getfd-close fd j p.world, good')

  pub close_rest-Rests :
      Rests target K T limit fuel I closed closed-IsEffect (close_rest target K fuel)
  unfolding close_rest
  close_rest-Rests it p fd good isfd next foreign = elim (Bool-cases (has_closefrom target)) [
    | inl bsd ↦ rw bsd (
        Returns-bind _ _ (FdIter.drop_fd_iter target K it p) _
          (drop_fd_iter-ChangesExactly target K T limit it p)
          (λ _ q drop j i. (
            λ o. ground (arith, drop j i, T.getfd-closefrom fd j q.world),
            λ o. (
              ground (arith, drop j i, T.getfd-closefrom fd j q.world),
              λ t le. ground (arith, T.getfd-closefrom fd j q.world),
            ),
          )))
    | inr other ↦ rw other (elim (Bool-cases (is_linux target && p.may_have_close_range)) [
      | inr absent ↦ rw absent (
          first_each-Done target K T limit fuel I closed closed-IsEffect (close_fd K) close_fd-Acts
            it p fd good isfd next foreign)
      | inl present ↦
          let linux : is_linux target ≡ true = ground arith in
          rw (present, linux)
            (elim (Bool-cases (eqb_ℤ called.0 (pos 0))) [
              | inl done ↦ rw done (all_closed ((eqb_ℤ-iff _ _).0 done))
              | inr failed ↦
                  rw failed (none_closed (λ e. true≢false (sym ((eqb_ℤ-iff _ _).1 e) ∙ failed)))
            ])
    ])
  ]
    where
      called : ℤ × K.World
      called = K.close_range (as_uint fd) uint_max 0 p.world

      all_closed :
          called.0 ≡ pos 0
          → Returns
              (FdIter.drop_fd_iter target K it (record p { world = called.1 }))
              (λ _ q. Done K closed limit (owned it) (λ j. leb_ℤ fd j) p.world q.world)
      all_closed success =
          range-Done target K T limit fuel I closed closed-IsEffect it p.world
            (record p { world = called.1 }) fd isfd
            (λ j i. T.getfd-close_range (as_uint fd) uint_max j p.world success)

      none_closed :
          called.0 ≢ pos 0
          → Returns
              ((close_fd K fd >> for_each target K (close_fd K) fuel fuel it)
                (record p { world = called.1; may_have_close_range = false }))
              (λ _ q. Done K closed limit (owned it) (λ j. leb_ℤ fd j) p.world q.world)
      none_closed nonzero =
          let good' = I.refused_lem fuel it p.world (as_uint fd) uint_max 0 good nonzero in
          refused-Done target K T limit fuel I closed closed-IsEffect (close_fd K) close_fd-Acts it
            p.world (record p { world = called.1; may_have_close_range = false }) fd
            (λ j. T.close_range_failed (as_uint fd) uint_max 0 j p.world nonzero) good' isfd next
            foreign
