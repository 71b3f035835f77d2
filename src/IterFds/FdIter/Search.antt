-- ===== src/IterFds/FdIter/Search.antt =====
-- The loop `while self.curfd <= maxfd` of src/iterfds/fditer.rs finds the next descriptor.
use close_fds.Base.{
  ℕ, zero, suc, ◌+◌, ◌≡◌, refl, sym, inl, inr, Bool, true, false, ◌||◌, Option, none, some, arith,
  ℤ, pos, ◌≤ℤ◌, ◌<ℤ◌, ◌+ℤ◌, +ℤ_parts, leb_ℤ, int_max, pos_part, neg_part, wrap_int, Returns,
  Returns-mono, Bool-cases, ap, ℤ-trichotomy,
}
use mathlib.Core.Path.{subst}
use close_fds.Target.{Target}
use close_fds.Kernel.{Kernel}
use close_fds.Process.{Process}
use close_fds.Sys.{is_fd_valid}
use close_fds.Util.Ranges.{suc_fd}
use close_fds.IterFds.FdIter.{FdIter, scan}

module _ (target : Target) (K : Kernel) (maxfd : ℤ) where
  -- A descriptor that the iterator may give.
  abbrev pub counts : FdIter → Process K → ℤ → Bool
  counts it p j = it.possible || is_fd_valid K j p.world

  abbrev stepped : FdIter → FdIter
  stepped it = record it { curfd = wrap_int (it.curfd +ℤ pos 1) }

  -- The first such descriptor from `curfd` on, or none up to `maxfd`.
  abbrev pub IsFirst : FdIter → Process K → Option ℤ × FdIter → Type 0
  IsFirst it p (none, it') =
      (it' ≡ record it { curfd = it'.curfd })
      × (maxfd <ℤ it'.curfd)
      × ((j : ℤ) → it.curfd ≤ℤ j → j ≤ℤ maxfd → counts it p j ≡ false)
  IsFirst it p (some fd, it') =
      (it.curfd ≤ℤ fd)
      × (fd ≤ℤ maxfd)
      × (counts it p fd ≡ true)
      × ((j : ℤ) → it.curfd ≤ℤ j → j <ℤ fd → counts it p j ≡ false)
      × (it' ≡ record it { curfd = fd +ℤ pos 1 })

  module _ (fuel : ℕ) (it : FdIter) (p : Process K) where
    scan_end :
        leb_ℤ it.curfd maxfd ≡ false → scan target K (suc fuel) maxfd it p ≡ some ((none, it), p)
    unfolding scan
    scan_end e = rw e refl

    scan_hit :
        leb_ℤ it.curfd maxfd ≡ true
        → counts it p it.curfd ≡ true
        → scan target K (suc fuel) maxfd it p ≡ some ((some it.curfd, stepped it), p)
    unfolding scan
    scan_hit e c = rw (e, c) refl

    scan_miss :
        leb_ℤ it.curfd maxfd ≡ true
        → counts it p it.curfd ≡ false
        → scan target K (suc fuel) maxfd it p ≡ scan target K fuel maxfd (stepped it) p
    unfolding scan
    scan_miss e c = rw (e, c) refl

  abbrev First : FdIter → Process K → Option ((Option ℤ × FdIter) × Process K) → Type 0
  First it p r = Returns r (λ a q. IsFirst it p a × (q ≡ p))

  -- What does not count at `curfd`, nor at `j` if `j` is behind it, does not count at `j` from there on.
  miss_from :
      (it : FdIter) (p : Process K) (j : ℤ)
      → counts it p it.curfd ≡ false
      → it.curfd ≤ℤ j
      → (it.curfd <ℤ j → counts it p j ≡ false)
      → counts it p j ≡ false
  miss_from it p j miss from behind = elim (ℤ-trichotomy j it.curfd) [
    | inl before ↦ absurd (omega arith)
    | inr (inl here) ↦ subst (λ i. counts it p i ≡ false) (sym here) miss
    | inr (inr after) ↦ behind after
  ]

  -- What is found behind `curfd`, which does not count, is found from `curfd` on.
  IsFirst-miss :
      (it : FdIter) (p : Process K) (a : Option ℤ × FdIter)
      → (stepped it).curfd ≡ it.curfd +ℤ pos 1
      → counts it p it.curfd ≡ false
      → IsFirst (stepped it) p a
      → IsFirst it p a
  IsFirst-miss it p (none, it') next miss (left, over, first) =
      (left, over, λ j from le. miss_from it p j miss from (λ lt. first j (next_le j lt) le))
    where
      next_le : (j : ℤ) → it.curfd <ℤ j → (stepped it).curfd ≤ℤ j
      next_le j lt = omega (arith, +ℤ_parts it.curfd (pos 1), ap pos_part next, ap neg_part next)
  IsFirst-miss it p (some fd, it') next miss (above, le, hit, before, left) = (
    omega (arith, +ℤ_parts it.curfd (pos 1), ap pos_part next, ap neg_part next, above),
    le,
    hit,
    λ j from lt. miss_from it p j miss from (λ after.
        before j
          (omega (arith, +ℤ_parts it.curfd (pos 1), ap pos_part next, ap neg_part next, after)) lt),
    left,
  )

  neg_part_nonneg : (a : ℤ) → pos 0 ≤ℤ a → neg_part a ≡ 0
  neg_part_nonneg a h = ground arith

  -- One round, given what the rounds after it do.
  scan_round :
      (fuel : ℕ) (it : FdIter) (p : Process K)
      → pos 0 ≤ℤ it.curfd
      → maxfd <ℤ int_max
      → ((stepped it).curfd ≡ it.curfd +ℤ pos 1
          → it.curfd ≤ℤ maxfd
          → First (stepped it) p (scan target K fuel maxfd (stepped it) p))
      → First it p (scan target K (suc fuel) maxfd it p)
  scan_round fuel it p low small later = elim (Bool-cases (leb_ℤ it.curfd maxfd)) [
    | inr over ↦
        subst (First it p) (sym (scan_end fuel it p over))
          ((refl, ground arith, λ j from le. absurd (ground arith)), refl)
    | inl more ↦
        let next = suc_fd it.curfd (low, ground arith) in
        elim (Bool-cases (counts it p it.curfd)) [
          | inl hit ↦ subst (First it p) (sym (scan_hit fuel it p more hit)) (
            (
              omega arith,
              ground arith,
              hit,
              λ j from before. absurd (omega arith),
              ap (λ c. record it { curfd = c }) next,
            ),
            refl,
          )
          | inr miss ↦ subst (First it p) (sym (scan_miss fuel it p more miss)) (
              Returns-mono _ _ (scan target K fuel maxfd (stepped it) p) (later next (ground arith))
                (λ a q (first, same). (IsFirst-miss it p a next miss first, same)))
        ]
  ]

  -- For a `curfd` that is not negative, a `maxfd` below the largest `c_int`, and fuel for the
  -- descriptors up to it, the loop ends, changes nothing in the process, and gives the first descriptor
  -- from `curfd` on that is open, or just the first if `possible` is set, with `curfd` set behind it; it
  -- gives none only if there is none up to `maxfd`, behind which `curfd` then is.
  pub scan-IsFirst :
      (fuel : ℕ) (it : FdIter) (p : Process K)
      → pos 0 ≤ℤ it.curfd
      → maxfd <ℤ int_max
      → maxfd <ℤ pos (fuel + pos_part it.curfd)
      → Returns (scan target K (suc fuel) maxfd it p) (λ a q. IsFirst it p a × (q ≡ p))
  scan-IsFirst zero it p low small enough =
      scan_round zero it p low small (λ next le. absurd (ground arith))
  scan-IsFirst (suc fuel) it p low small enough = scan_round (suc fuel) it p low small (λ next le.
      scan-IsFirst fuel (stepped it) p
        (omega (arith, +ℤ_parts it.curfd (pos 1), ap pos_part next, ap neg_part next)) small
        (omega (
          arith,
          +ℤ_parts it.curfd (pos 1),
          ap pos_part next,
          ap neg_part next,
          neg_part_nonneg it.curfd low,
        )))
