-- ===== src/CloseFds/Close/Shortcut.antt =====
-- `close_fds_shortcut` of src/closefds/close.rs, over a kernel that keeps its promises.
use close_fds.Base.{
  ℕ, ◌≡◌, refl, sym, ◌∙◌, ap, Bool, true, false, true≢false, not, ◌&&◌, if◌then◌else◌, arith, List,
  ℤ, pos, negsuc, ◌<ℤ◌, ltb_ℤ, eqb_ℤ, uint_max, as_uint, as_uint-pos, Result, ok, Action, Returns,
  Returns-and_then, Returns-mono, Bool-cases, inl, inr, eqb_ℤ-iff, pure,
}
use mathlib.Core.Path.{subst}
use close_fds.Target.{Target, is_linux, is_freebsd, has_closefrom, has_apply_range}
use close_fds.Kernel.{Kernel}
use close_fds.Kernel.Laws.{IsTable, in_range}
use close_fds.Kernel.Effect.{closed, closed-IsEffect, Attempts, Attempts-cong}
use close_fds.CloseFds.Request.{IsRequest, from_minfd, apply_range-Attempts}
use close_fds.Process.{Process}
use close_fds.Util.{apply_range}
use close_fds.Util.Simplify.{is_target}
use close_fds.CloseFds.Close.{
  try_close_range, check_has_close_range, close_gaps, close_fds_shortcut,
}

module _ (target : Target) (K : Kernel) (T : IsTable K) where
  -- What `close_range` does to the table, by its result.
  pub try_close_range-Attempts :
      (minfd maxfd : ℕ) (p : Process K)
      → Returns
          (try_close_range target K minfd maxfd p)
          (λ r q. Attempts K closed (in_range minfd maxfd) p.world r q.world)
  unfolding try_close_range
  try_close_range-Attempts minfd maxfd p =
      elim (Bool-cases (eqb_ℤ (K.close_range minfd maxfd 0 p.world).0 (pos 0))) [
        | inl done ↦
            let zero = (eqb_ℤ-iff _ _).0 done in
            elim (Bool-cases (is_linux target)) [
              | inl l ↦ rw (l, done) (λ j i. T.getfd-close_range minfd maxfd j p.world zero)
              | inr l ↦ rw (l, done) (λ j i. T.getfd-close_range minfd maxfd j p.world zero)
            ]
        | inr failed ↦
            let nonzero = λ (e : (K.close_range minfd maxfd 0 p.world).0 ≡ pos 0).
              true≢false (sym ((eqb_ℤ-iff _ _).1 e) ∙ failed) in
            elim (Bool-cases (is_linux target)) [
              | inl l ↦
                  rw (l, failed) (λ j i. inl (T.close_range_failed minfd maxfd 0 j p.world nonzero))
              | inr l ↦
                  rw (l, failed) (λ j i. inl (T.close_range_failed minfd maxfd 0 j p.world nonzero))
            ]
      ]

  -- The function that `close_fds_shortcut` hands to `apply_range`.
  abbrev close_between : ℤ → ℤ → Action (Process K) (Result (Unit {0}))
  close_between low high = try_close_range target K (as_uint low) (as_uint high)

check_has_close_range-world :
    (K : Kernel) (p : Process K) → Returns (check_has_close_range K p) (λ r q. q.world ≡ p.world)
unfolding check_has_close_range
check_has_close_range-world K p = ground arith

module _ (target : Target) (K : Kernel) (T : IsTable K) where
  close_gaps-Attempts :
      (minfd : ℤ) (keep_fds : List ℤ) (max_keep_fd : ℤ) (fds_sorted : Bool) (p : Process K)
      → IsRequest minfd keep_fds max_keep_fd fds_sorted
      → Returns
          (close_gaps target K minfd keep_fds fds_sorted p)
          (λ r q. Attempts K closed (is_target minfd keep_fds) p.world r q.world)
  unfolding close_gaps
  close_gaps-Attempts minfd keep_fds max_keep_fd false p h =
      elim (Bool-cases (has_apply_range target)) [
        | inl e ↦ rw e (λ j i. inl refl)
        | inr e ↦ rw e (λ j i. inl refl)
      ]
  close_gaps-Attempts minfd keep_fds max_keep_fd true p h =
      elim (Bool-cases (has_apply_range target)) [
        | inr e ↦ rw e (λ j i. inl refl)
        | inl e ↦ rw e (
            Returns-and_then (λ r q. q.world ≡ p.world) _
              (if is_freebsd target then check_has_close_range K else pure (ok tt))
              (apply_range (close_between target K T) minfd keep_fds) p checked
              (λ q same.
                subst
                  (λ w.
                    Returns (apply_range (close_between target K T) minfd keep_fds q)
                      (λ r t. Attempts K closed (is_target minfd keep_fds) w r t.world))
                  same
                  (apply_range-Attempts K closed closed-IsEffect (close_between target K T)
                    (λ low high. try_close_range-Attempts target K T (as_uint low) (as_uint high))
                    minfd keep_fds q h.nonneg h.within h.below_max (h.flag refl)))
              (λ q same j i. inl (ap (K.getfd j) same)))
      ]
    where
      checked :
          Returns
            ((if is_freebsd target then check_has_close_range K else pure (ok tt)) p)
            (λ r q. q.world ≡ p.world)
      checked = elim (Bool-cases (is_freebsd target)) [
        | inl e ↦ rw e (check_has_close_range-world K p)
        | inr e ↦ rw e refl
      ]

  -- Over a kernel that keeps its promises, for a `minfd` that is a nonnegative `c_int`, and a list below
  -- the largest `c_int` that `max_keep_fd` bounds and that is sorted if the flag says so, the shortcut
  -- ends, whatever the system: with success, having closed exactly the descriptors from `minfd` on that
  -- are not to be kept, or with an error, having closed only some of them.
  pub close_fds_shortcut-Attempts :
      (minfd : ℤ) (keep_fds : List ℤ) (max_keep_fd : ℤ) (fds_sorted : Bool) (p : Process K)
      → IsRequest minfd keep_fds max_keep_fd fds_sorted
      → Returns
          (close_fds_shortcut target K minfd keep_fds max_keep_fd fds_sorted p)
          (λ r q. Attempts K closed (is_target minfd keep_fds) p.world r q.world)
  unfolding close_fds_shortcut
  close_fds_shortcut-Attempts minfd keep_fds max_keep_fd fds_sorted p h =
      elim (Bool-cases (has_closefrom target && ltb_ℤ max_keep_fd minfd)) [
        | inl all ↦
            let lt : max_keep_fd <ℤ minfd = ground arith in
            rw all (λ j i.
              T.getfd-closefrom minfd j p.world
              ∙ ap (λ b. if b then negsuc 0 else K.getfd j p.world)
                  (from_minfd minfd keep_fds max_keep_fd fds_sorted h lt j))
        | inr kept ↦ rw kept (elim (Bool-cases (is_linux target && not p.may_have_close_range)) [
          | inl absent ↦ rw absent (λ j i. inl refl)
          | inr present ↦
              rw present (elim (Bool-cases (is_linux target && ltb_ℤ max_keep_fd minfd)) [
                | inl all ↦ rw all (all_above (ground arith))
                | inr between ↦
                    rw between (close_gaps-Attempts minfd keep_fds max_keep_fd fds_sorted p h)
              ])
        ])
      ]
    where
      all_above :
          max_keep_fd <ℤ minfd
          → Returns
              (try_close_range target K (as_uint minfd) uint_max p)
              (λ r q. Attempts K closed (is_target minfd keep_fds) p.world r q.world)
      all_above lt =
          Returns-mono _ _ (try_close_range target K (as_uint minfd) uint_max p)
            (try_close_range-Attempts target K T (as_uint minfd) uint_max p)
            (λ r q g.
              Attempts-cong K closed _ _ p.world q.world r
                (λ j i.
                  ground (arith, as_uint-pos minfd h.nonneg h.within)
                  ∙ from_minfd minfd keep_fds max_keep_fd fds_sorted h lt j)
                g)
