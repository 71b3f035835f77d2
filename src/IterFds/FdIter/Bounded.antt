-- ===== src/IterFds/FdIter/Bounded.antt =====
-- `get_maxfd_direct` of src/iterfds/fditer.rs, where what it asks the system keeps its promises.
use close_fds.Base.{
  ℕ, zero, suc, ◌+◌, ◌*◌, ◌<◌, ◌≡◌, sym, ◌∙◌, ◌⊎◌, inl, inr, true, false, not, ◌&&◌, Option, none,
  some, arith, leb, ℤ, pos, negsuc, ◌≤ℤ◌, ◌<ℤ◌, leb_ℤ, eqb_ℤ, eqb_ℤ-iff, Bool-cases, Option-cases,
}
use mathlib.Core.Path.{subst}
use close_fds.Target.{Target, has_nfds, is_netbsd, is_freebsd}
use close_fds.Kernel.{Kernel}
use close_fds.Kernel.Laws.{IsTable}
use close_fds.Sys.{is_fd_valid}
use close_fds.IterFds.FdIter.{
  FdIter, find_maxfd, nfds_to_maxfd, netbsd_maxfd, get_nfds, system_maxfd, clamp_limit,
  get_maxfd_direct,
}
use close_fds.IterFds.FdIter.MaxFd.{
  count, IsLargest, find_open, find_more, find_skip, maxfd_zero, maxfd_few, maxfd_many,
  nfds_to_maxfd-IsLargest,
}
use close_fds.IterFds.FdIter.Limits.{NoneAbove, IsBounded}

-- The fallback looks at no descriptor above 65535, and at all up to 1023.
pub clamp_limit-bounds :
    (target : Target) (K : Kernel) (fdlimit : ℤ)
    → (pos 1023 ≤ℤ clamp_limit target K fdlimit) × (clamp_limit target K fdlimit ≤ℤ pos 65535)
unfolding clamp_limit
clamp_limit-bounds target K fdlimit = (ground arith, ground arith)

module _ (target : Target) (K : Kernel) where
  -- A descriptor that is found is one of those that were looked at.
  find_maxfd-below :
      (rounds fd nfds found : ℕ) (w : K.World) (m : ℤ)
      → find_maxfd target K rounds fd nfds found w ≡ some m
      → m <ℤ pos (fd + rounds)
  unfolding find_maxfd
  find_maxfd-below zero fd nfds found w m e = cc
  find_maxfd-below (suc rounds) fd nfds found w m e = elim (Bool-cases (is_fd_valid K (pos fd) w)) [
    | inr closed ↦ omega (
      arith,
      find_maxfd-below rounds (suc fd) nfds found w m
          (sym (find_skip target K rounds fd nfds found w closed) ∙ e),
    )
    | inl opened ↦ elim (Bool-cases (leb nfds (found + 1))) [
      | inl enough ↦
          let here = sym (find_open target K rounds fd nfds found w opened (ground arith)) ∙ e in
          let same : m ≡ pos fd = cc in
          subst (λ i. i <ℤ pos (fd + suc rounds)) (sym same) (omega arith)
      | inr more ↦ omega (
        arith,
        find_maxfd-below rounds (suc fd) nfds (found + 1) w m
            (sym (find_more target K rounds fd nfds found w opened (ground arith)) ∙ e),
      )
    ]
  ]

  maxfd_negative : (n : ℕ) (w : K.World) → nfds_to_maxfd target K (negsuc n) w ≡ none
  unfolding nfds_to_maxfd
  maxfd_negative n w = ground arith

  nfds_to_maxfd-below :
      (nfds m : ℤ) (w : K.World) → nfds_to_maxfd target K nfds w ≡ some m → m <ℤ pos 200
  unfolding nfds_to_maxfd
  nfds_to_maxfd-below (pos zero) m w e =
      let found = sym (maxfd_zero target K w) ∙ e in
      let none_open : m ≡ negsuc 0 = cc in subst (λ i. i <ℤ pos 200) (sym none_open) (omega arith)
  nfds_to_maxfd-below (negsuc n) m w e = let found = sym (maxfd_negative n w) ∙ e in cc
  nfds_to_maxfd-below (pos (suc n)) m w e = elim (Bool-cases (leb 100 (suc n))) [
    | inl many ↦ let found = sym (maxfd_many target K n w (ground arith)) ∙ e in cc
    | inr few ↦
        let lt : suc n < 100 = ground arith in
        omega (
          arith,
          find_maxfd-below (suc n * 2) 0 (suc n) 0 w m (sym (maxfd_few target K n w lt) ∙ e),
        )
  ]

module _ (target : Target) (K : Kernel) (T : IsTable K) (limit : ℤ) (top : ℕ)
    (L : IsBounded target K limit top) where
  -- A bound on the descriptors that are open up to the limit.
  abbrev pub IsMax : ℤ → K.World → Type 0
  IsMax m w =
      (m ≤ℤ pos top) × ((j : ℤ) → m <ℤ j → j ≤ℤ limit → K.getfd j w ≡ negsuc 0) × (negsuc 0 ≤ℤ m)

  pub invalid_absent : (j : ℤ) (w : K.World) → is_fd_valid K j w ≡ false → K.getfd j w ≡ negsuc 0
  unfolding is_fd_valid
  invalid_absent j w e = T.getfd_failed j w (ground arith)

  absent_at : (j m : ℤ) (w : K.World) → IsLargest K m w → m <ℤ j → K.getfd j w ≡ negsuc 0
  absent_at (pos k) m w largest above = elim (Bool-cases (is_fd_valid K (pos k) w)) [
    | inl valid ↦ absurd (omega (arith, largest.1 k valid))
    | inr invalid ↦ invalid_absent (pos k) w invalid
  ]
  absent_at (negsuc k) m w largest above = T.getfd-neg (negsuc k) w (omega arith)

  largest_least :
      (m : ℤ) (w : K.World) → (m ≡ negsuc 0) ⊎ (is_fd_valid K m w ≡ true) → negsuc 0 ≤ℤ m
  unfolding is_fd_valid
  largest_least (pos k) w why = omega arith
  largest_least (negsuc zero) w why = omega arith
  largest_least (negsuc (suc k)) w (inl none_open) = cc
  largest_least (negsuc (suc k)) w (inr valid) =
      absurd (ground (arith, T.getfd-neg (negsuc (suc k)) w (omega arith)))

  -- An answer that bounds the open descriptors, or none.
  abbrev Bounds : Option ℤ → K.World → Type 0
  Bounds none w = Unit
  Bounds (some m) w = IsMax m w

  netbsd-Bounds : (w : K.World) → is_netbsd target ≡ true → Bounds (netbsd_maxfd target K w) w
  unfolding netbsd_maxfd
  netbsd-Bounds w netbsd = elim (Bool-cases (leb_ℤ (pos 0) (K.maxfd w).0)) [
    | inl some_open ↦
        let (small, above) = L.maxfd_lem w netbsd in
        rw some_open (small, λ j over upto. above (inl (ground arith)) j over, ground arith)
    | inr unknown ↦
        rw unknown
          (elim (Bool-cases (eqb_ℤ (K.maxfd w).0 (negsuc 0) && eqb_ℤ (K.maxfd w).1 (pos 0))) [
            | inr failed ↦ rw failed tt
            | inl none_open ↦
                let minus : (K.maxfd w).0 ≡ negsuc 0 =
                  (eqb_ℤ-iff (K.maxfd w).0 (negsuc 0)).0 (ground arith) in
                let clear : (K.maxfd w).1 ≡ pos 0 =
                  (eqb_ℤ-iff (K.maxfd w).1 (pos 0)).0 (ground arith) in
                rw none_open (
                  omega arith,
                  λ j over upto.
                      subst (λ m. NoneAbove K m w) minus
                        ((L.maxfd_lem w netbsd).1 (inr (minus, clear))) j over,
                  omega arith,
                )
          ])
  ]

  -- An answer that is not below the number of the open descriptors, or none.
  abbrev Counts : Option ℤ → K.World → Type 0
  Counts none w = Unit
  Counts (some n) w = (k : ℕ) → pos (count K k w) ≤ℤ n

  get_nfds-Counts : (w : K.World) → has_nfds target ≡ true → Counts (get_nfds target K w) w
  unfolding get_nfds
  get_nfds-Counts w has = elim (Bool-cases (is_freebsd target)) [
    | inl freebsd ↦ rw freebsd (elim (Bool-cases (eqb_ℤ (K.proc_nfds w).0 (pos 0))) [
      | inl done ↦ rw done (λ k. L.proc_nfds_lem w k freebsd ((eqb_ℤ-iff _ _).0 done))
      | inr failed ↦ rw failed tt
    ])
    | inr openbsd ↦ rw openbsd (λ k. L.getdtablecount_lem w k has openbsd)
  ]

  nfds-Bounds :
      (w : K.World) (o : Option ℤ)
      → Counts o w
      → Bounds (elim o [ none ↦ none | some nfds ↦ nfds_to_maxfd target K nfds w ]) w
  nfds-Bounds w none counts = tt
  nfds-Bounds w (some n) counts = elim (Option-cases (nfds_to_maxfd target K n w)) [
    | inl e ↦ subst (λ o. Bounds o w) (sym e) tt
    | inr (m, e) ↦
        let largest = nfds_to_maxfd-IsLargest target K n m w counts e in
        subst (λ o. Bounds o w) (sym e)
          (
            omega (arith, nfds_to_maxfd-below target K n m w e, L.tops),
            λ j over upto. absent_at j m w largest over,
            largest_least m w largest.0,
          )
  ]

  system-Bounds : (it : FdIter) (w : K.World) → Bounds (system_maxfd target K it w) w
  unfolding system_maxfd
  system-Bounds it w = elim (Bool-cases (is_netbsd target)) [
    | inl netbsd ↦ rw netbsd (netbsd-Bounds w netbsd)
    | inr other ↦ rw other (elim (Bool-cases (has_nfds target && not it.skip_nfds)) [
      | inl counted ↦
          rw counted (nfds-Bounds w (get_nfds target K w) (get_nfds-Counts w (ground arith)))
      | inr uncounted ↦ rw uncounted tt
    ])
  ]

  pub get_maxfd_direct-IsMax :
      (it : FdIter) (w : K.World) → IsMax (get_maxfd_direct target K it w) w
  unfolding get_maxfd_direct
  get_maxfd_direct-IsMax it w = known (system_maxfd target K it w) (system-Bounds it w)
    where
      known :
          (o : Option ℤ)
          → Bounds o w
          → IsMax (elim o [ some maxfd ↦ maxfd | none ↦ clamp_limit target K (K.open_max w) ]) w
      known (some m) bound = bound
      known none bound = (
        omega (arith, L.tops, clamp_limit-bounds target K (K.open_max w)),
        λ j over upto. absurd (omega (arith, L.soft w)),
        omega (arith, clamp_limit-bounds target K (K.open_max w)),
      )
