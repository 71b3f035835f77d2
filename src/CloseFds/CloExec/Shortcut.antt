-- ===== src/CloseFds/CloExec/Shortcut.antt =====
-- `set_cloexec_shortcut` of src/closefds/cloexec.rs, over a kernel that keeps its promises.
use close_fds.Base.{
  ℕ, refl, sym, ◌∙◌, inl, inr, Bool, true≢false, not, arith, List, ℤ, pos, ◌<ℤ◌, ltb_ℤ, eqb_ℤ,
  eqb_ℤ-iff, uint_max, as_uint, as_uint-pos, Returns, Returns-mono, Bool-cases,
}
use close_fds.Kernel.{Kernel}
use close_fds.Kernel.Laws.{IsTable, in_range}
use close_fds.Kernel.Effect.{Attempts, Attempts-cong}
use close_fds.Kernel.Flags.{with_cloexec, with_cloexec-IsEffect, IsFlagTable}
use close_fds.Process.{Process}
use close_fds.Util.Simplify.{is_target}
use close_fds.CloseFds.Request.{IsRequest, from_minfd, apply_range-Attempts}
use close_fds.CloseFds.CloExec.{set_cloexec_range, set_cloexec_shortcut}

module _ (K : Kernel) (T : IsTable K) (F : IsFlagTable K) where
  pub set_cloexec_range-Attempts :
      (minfd maxfd : ℕ) (p : Process K)
      → Returns
          (set_cloexec_range K minfd maxfd p)
          (λ r q. Attempts K with_cloexec (in_range minfd maxfd) p.world r q.world)
  unfolding set_cloexec_range
  set_cloexec_range-Attempts minfd maxfd p =
      elim (Bool-cases (eqb_ℤ (K.close_range minfd maxfd 4 p.world).0 (pos 0))) [
        | inl done ↦
            rw done (λ j i. F.getfd-mark_range minfd maxfd j p.world ((eqb_ℤ-iff _ _).0 done))
        | inr failed ↦ rw failed (λ j i. inl (
            T.close_range_failed minfd maxfd 4 j p.world
              (λ e. true≢false (sym ((eqb_ℤ-iff _ _).1 e) ∙ failed))))
      ]

  -- Over a kernel that keeps its promises, for a `minfd` that is a nonnegative `c_int`, and a list below
  -- the largest `c_int` that `max_keep_fd` bounds and that is sorted if the flag says so, the shortcut
  -- ends: with success, having marked exactly the descriptors from `minfd` on that are not to be kept, or
  -- with an error, having marked only some of them.
  pub set_cloexec_shortcut-Attempts :
      (minfd : ℤ) (keep_fds : List ℤ) (max_keep_fd : ℤ) (fds_sorted : Bool) (p : Process K)
      → IsRequest minfd keep_fds max_keep_fd fds_sorted
      → Returns
          (set_cloexec_shortcut K minfd keep_fds max_keep_fd fds_sorted p)
          (λ r q. Attempts K with_cloexec (is_target minfd keep_fds) p.world r q.world)
  unfolding set_cloexec_shortcut
  set_cloexec_shortcut-Attempts minfd keep_fds max_keep_fd fds_sorted p h =
      elim (Bool-cases (not p.may_have_close_range_cloexec)) [
        | inl absent ↦ rw absent (λ j i. inl refl)
        | inr present ↦ rw present (elim (Bool-cases (ltb_ℤ max_keep_fd minfd)) [
          | inl all ↦ rw all (all_above (ground arith))
          | inr kept ↦ rw kept (elim (Bool-cases fds_sorted) [
            | inr unsorted ↦ rw unsorted (λ j i. inl refl)
            | inl sorted ↦ rw sorted (
                apply_range-Attempts K with_cloexec with_cloexec-IsEffect
                  (λ low high. set_cloexec_range K (as_uint low) (as_uint high))
                  (λ low high. set_cloexec_range-Attempts (as_uint low) (as_uint high)) minfd
                  keep_fds p h.nonneg h.within h.below_max (h.flag sorted))
          ])
        ])
      ]
    where
      all_above :
          max_keep_fd <ℤ minfd
          → Returns
              (set_cloexec_range K (as_uint minfd) uint_max p)
              (λ r q. Attempts K with_cloexec (is_target minfd keep_fds) p.world r q.world)
      all_above lt =
          Returns-mono _ _ (set_cloexec_range K (as_uint minfd) uint_max p)
            (set_cloexec_range-Attempts (as_uint minfd) uint_max p)
            (λ r q g.
              Attempts-cong K with_cloexec _ _ p.world q.world r
                (λ j i.
                  ground (arith, as_uint-pos minfd h.nonneg h.within)
                  ∙ from_minfd minfd keep_fds max_keep_fd fds_sorted h lt j)
                g)
