-- ===== src/CloseFds/CloExec/Rest.antt =====
-- `set_cloexec_rest` of src/closefds/cloexec.rs: it marks every descriptor from the given one on.
use close_fds.Base.{
  ℕ, ◌≡◌, ◌≢◌, sym, ◌∙◌, ap, inl, inr, Bool, true, false, true≢false, not, ◌&&◌, ◌==◌, arith, ℤ,
  pos, eqb_ℤ, eqb_ℤ-iff, leb_ℤ, uint_max, as_uint, pos_part, ◌>>◌, Returns, Bool-cases,
}
use Prim.Native.Nat.{bit_and, bit_or}
use close_fds.Target.{Target, is_linux}
use close_fds.Kernel.{Kernel}
use close_fds.Kernel.Laws.{IsTable}
use close_fds.Kernel.Effect.{ChangesExactly}
use close_fds.Kernel.Flags.{with_cloexec, with_cloexec-IsEffect, IsFlagTable}
use close_fds.Sys.{set_cloexec}
use close_fds.IterFds.Contract.{owned, Done, IsIterator}
use close_fds.IterFds.Loops.{for_each}
use close_fds.IterFds.Loops.Each.{Acts, first_each-Done, refused-Done, range-Done}
use close_fds.CloseFds.KeepLoop.Refine.{Rests}
use close_fds.CloseFds.CloExec.{set_cloexec_rest}

module _ (K : Kernel) (F : IsFlagTable K) where
  -- The test of `set_cloexec`, on a descriptor whose flag is to be set.
  abbrev lacks : ℤ → K.World → Bool
  lacks fd w = leb_ℤ (pos 0) (K.getfd fd w) && not (bit_and (pos_part (K.getfd fd w)) 1 == 1)

  setfd-ChangesExactly :
      (fd : ℤ) (w : K.World)
      → lacks fd w ≡ true
      → ChangesExactly K with_cloexec
          (eqb_ℤ fd)
          w
          (K.setfd fd (pos (bit_or (pos_part (K.getfd fd w)) 1)) w)
  setfd-ChangesExactly fd w e j i = elim (Bool-cases (eqb_ℤ fd j)) [
    | inl same ↦ ground (
      arith,
      F.getfd-setfd fd j w (ground arith),
      ap (λ k. K.getfd k w) ((eqb_ℤ-iff fd j).0 same),
    )
    | inr other ↦ ground (arith, F.getfd-setfd fd j w (ground arith))
  ]

  unset-ChangesExactly :
      (fd : ℤ) (w : K.World) → lacks fd w ≡ false → ChangesExactly K with_cloexec (eqb_ℤ fd) w w
  unset-ChangesExactly fd w e j i = elim (Bool-cases (eqb_ℤ fd j)) [
    | inl same ↦ ground (arith, ap (λ k. K.getfd k w) ((eqb_ℤ-iff fd j).0 same))
    | inr other ↦ ground arith
  ]

module _ (target : Target) (K : Kernel) (T : IsTable K) (F : IsFlagTable K) (limit : ℤ) (fuel : ℕ)
    (I : IsIterator target K limit fuel) where
  -- `set_cloexec` sets the flag of its descriptor, if it is open.
  pub set_cloexec-Acts :
      Acts target K T limit fuel I with_cloexec with_cloexec-IsEffect (set_cloexec K)
  unfolding set_cloexec
  set_cloexec-Acts rounds it p fd good isfd foreign = elim (Bool-cases (lacks K F fd p.world)) [
    | inl e ↦
        let good' =
          I.setfd_lem rounds it p.world fd (pos (bit_or (pos_part (K.getfd fd p.world)) 1)) good in
        rw e (setfd-ChangesExactly K F fd p.world e, good')
    | inr e ↦ rw e (unset-ChangesExactly K F fd p.world e, good)
  ]

  pub set_cloexec_rest-Rests :
      Rests target K T limit fuel I with_cloexec with_cloexec-IsEffect
        (set_cloexec_rest target K fuel)
  unfolding set_cloexec_rest
  set_cloexec_rest-Rests it p fd good isfd next foreign =
      elim (Bool-cases (is_linux target && p.may_have_close_range_cloexec)) [
        | inr absent ↦ rw absent (
            first_each-Done target K T limit fuel I with_cloexec with_cloexec-IsEffect
              (set_cloexec K) set_cloexec-Acts it p fd good isfd next foreign)
        | inl present ↦ rw present (elim (Bool-cases (eqb_ℤ called.0 (pos 0))) [
          | inl done ↦ rw done (
              range-Done target K T limit fuel I with_cloexec with_cloexec-IsEffect it p.world
                (record p { world = called.1 }) fd isfd
                (λ j i.
                  F.getfd-mark_range (as_uint fd) uint_max j p.world ((eqb_ℤ-iff _ _).0 done)))
          | inr failed ↦ rw failed (unmarked (λ e. true≢false (sym ((eqb_ℤ-iff _ _).1 e) ∙ failed)))
        ])
      ]
    where
      called : ℤ × K.World
      called = K.close_range (as_uint fd) uint_max 4 p.world

      unmarked :
          called.0 ≢ pos 0
          → Returns
              ((set_cloexec K fd >> for_each target K (set_cloexec K) fuel fuel it)
                (record p { world = called.1; may_have_close_range_cloexec = false }))
              (λ _ q. Done K with_cloexec limit (owned it) (λ j. leb_ℤ fd j) p.world q.world)
      unmarked nonzero =
          let good' = I.refused_lem fuel it p.world (as_uint fd) uint_max 4 good nonzero in
          refused-Done target K T limit fuel I with_cloexec with_cloexec-IsEffect (set_cloexec K)
            set_cloexec-Acts it p.world
            (record p { world = called.1; may_have_close_range_cloexec = false }) fd
            (λ j. T.close_range_failed (as_uint fd) uint_max 4 j p.world nonzero) good' isfd next
            foreign
