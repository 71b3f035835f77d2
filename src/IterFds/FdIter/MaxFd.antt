-- ===== src/IterFds/FdIter/MaxFd.antt =====
-- `nfds_to_maxfd` of src/iterfds/fditer.rs finds the largest open descriptor from the number of open ones.
use close_fds.Base.{
  ℕ, zero, suc, ◌+◌, ◌*◌, ◌≤◌, ◌<◌, ◌≡◌, refl, sym, ◌∙◌, ◌⊎◌, inl, inr, true, false, none, some,
  if◌then◌else◌, arith, leb, ℤ, pos, negsuc, ◌≤ℤ◌, Bool-cases,
}
use mathlib.Core.Path.{subst}
use close_fds.Target.{Target}
use close_fds.Kernel.{Kernel}
use close_fds.Sys.{is_fd_valid}
use close_fds.IterFds.FdIter.{find_maxfd, nfds_to_maxfd}

module _ (K : Kernel) where
  -- The number of open descriptors below a bound.
  unfoldable pub count : ℕ → K.World → ℕ
  count zero w = 0
  count (suc n) w = if is_fd_valid K (pos n) w then count n w + 1 else count n w

  -- A descriptor that is open, with none above it, or -1 if none is open at all.
  abbrev pub IsLargest : ℤ → K.World → Type 0
  IsLargest m w =
      ((m ≡ negsuc 0) ⊎ (is_fd_valid K m w ≡ true))
      × ((j : ℕ) → is_fd_valid K (pos j) w ≡ true → pos j ≤ℤ m)

  count-suc :
      (n : ℕ) (w : K.World) → is_fd_valid K (pos n) w ≡ true → count (suc n) w ≡ count n w + 1
  unfolding count
  count-suc n w e = rw e refl

  pub count-skip :
      (n : ℕ) (w : K.World) → is_fd_valid K (pos n) w ≡ false → count (suc n) w ≡ count n w
  unfolding count
  count-skip n w e = rw e refl

  count-step : (n : ℕ) (w : K.World) → count n w ≤ count (suc n) w
  unfolding count
  count-step n w = ground arith

  pub count_mono : (n m : ℕ) (w : K.World) → n ≤ m → count n w ≤ count m w
  unfolding count
  count_mono zero m w h = omega arith
  count_mono (suc n) zero w h = absurd (omega arith)
  count_mono (suc n) (suc m) w h = elim (Bool-cases (leb (suc n) m)) [
    | inl more ↦
        let le : suc n ≤ m = ground arith in
        omega (arith, count_mono (suc n) m w le, count-step m w)
    | inr last ↦
        let same : n ≡ m = ground arith in
        subst (λ k. count (suc n) w ≤ count (suc k) w) same (omega arith)
  ]

module _ (target : Target) (K : Kernel) (rounds fd nfds found : ℕ) (w : K.World) where
  pub find_open :
      is_fd_valid K (pos fd) w ≡ true
      → nfds ≤ found + 1
      → find_maxfd target K (suc rounds) fd nfds found w ≡ some (pos fd)
  unfolding find_maxfd
  find_open v le = ground arith

  pub find_more :
      is_fd_valid K (pos fd) w ≡ true
      → found + 1 < nfds
      → find_maxfd target K (suc rounds) fd nfds found w
        ≡ find_maxfd target K rounds (suc fd) nfds (found + 1) w
  unfolding find_maxfd
  find_more v lt = ground arith

  pub find_skip :
      is_fd_valid K (pos fd) w ≡ false
      → find_maxfd target K (suc rounds) fd nfds found w
        ≡ find_maxfd target K rounds (suc fd) nfds found w
  unfolding find_maxfd
  find_skip v = ground arith

module _ (target : Target) (K : Kernel) where
  -- What the search has found: the open descriptor at which the count is complete.
  abbrev Reached : ℕ → ℤ → K.World → Type 0
  Reached nfds m w =
      (k : ℕ) × (m ≡ pos k) × (is_fd_valid K (pos k) w ≡ true) × (count K (suc k) w ≡ nfds)

  find_maxfd-Reached :
      (rounds fd nfds found : ℕ) (w : K.World) (m : ℤ)
      → found ≡ count K fd w
      → found < nfds
      → find_maxfd target K rounds fd nfds found w ≡ some m
      → Reached nfds m w
  unfolding find_maxfd
  find_maxfd-Reached zero fd nfds found w m c few e = cc
  find_maxfd-Reached (suc rounds) fd nfds found w m c few e =
      elim (Bool-cases (is_fd_valid K (pos fd) w)) [
        | inr closed ↦
            find_maxfd-Reached rounds (suc fd) nfds found w m (c ∙ sym (count-skip K fd w closed))
              few (sym (find_skip target K rounds fd nfds found w closed) ∙ e)
        | inl opened ↦ elim (Bool-cases (leb nfds (found + 1))) [
          | inl enough ↦
              let here =
                sym (find_open target K rounds fd nfds found w opened (ground arith)) ∙ e in
              let same : m ≡ pos fd = cc in
              let le : nfds ≤ found + 1 = ground arith in
              (fd, same, opened, omega (arith, le, count-suc K fd w opened))
          | inr more ↦
              find_maxfd-Reached rounds (suc fd) nfds (found + 1) w m
                (omega (arith, count-suc K fd w opened)) (ground arith)
                (sym (find_more target K rounds fd nfds found w opened (ground arith)) ∙ e)
        ]
      ]

  -- Nothing is open above the descriptor at which the count is complete.
  Reached-IsLargest :
      (nfds : ℕ) (m : ℤ) (w : K.World)
      → ((n : ℕ) → count K n w ≤ nfds)
      → Reached nfds m w
      → IsLargest K m w
  Reached-IsLargest nfds m w all (k, e, opened, full) = (
    inr (subst (λ i. is_fd_valid K i w ≡ true) (sym e) opened),
    λ j v. subst (λ i. pos j ≤ℤ i) (sym e) (below j v),
  )
    where
      below : (j : ℕ) → is_fd_valid K (pos j) w ≡ true → pos j ≤ℤ pos k
      below j v = elim (Bool-cases (leb j k)) [
        | inl le ↦ ground arith
        | inr above ↦
            let lt : suc k ≤ j = ground arith in
            absurd
              (omega (arith, full, all (suc j), count-suc K j w v, count_mono K (suc k) j w lt))
      ]

  pub maxfd_zero : (w : K.World) → nfds_to_maxfd target K (pos 0) w ≡ some (negsuc 0)
  unfolding nfds_to_maxfd
  maxfd_zero w = ground arith

  pub maxfd_few :
      (n : ℕ) (w : K.World)
      → suc n < 100
      → nfds_to_maxfd target K (pos (suc n)) w ≡ find_maxfd target K (suc n * 2) 0 (suc n) 0 w
  unfolding nfds_to_maxfd
  maxfd_few n w lt = ground arith

  pub maxfd_many :
      (n : ℕ) (w : K.World) → 100 ≤ suc n → nfds_to_maxfd target K (pos (suc n)) w ≡ none
  unfolding nfds_to_maxfd
  maxfd_many n w le = ground arith

  -- If `nfds` is at least the number of open descriptors and the search gives a number, it is the
  -- largest open descriptor, or -1 where none is open.
  pub nfds_to_maxfd-IsLargest :
      (nfds m : ℤ) (w : K.World)
      → ((n : ℕ) → pos (count K n w) ≤ℤ nfds)
      → nfds_to_maxfd target K nfds w ≡ some m
      → IsLargest K m w
  unfolding count
  nfds_to_maxfd-IsLargest (pos zero) m w all e =
      let found = sym (maxfd_zero w) ∙ e in
      let none_open : m ≡ negsuc 0 = cc in
      (inl none_open, λ j v. absurd (omega (arith, all (suc j), count-suc K j w v)))
  nfds_to_maxfd-IsLargest (pos (suc n)) m w all e = elim (Bool-cases (leb 100 (suc n))) [
    | inl many ↦ let found = sym (maxfd_many n w (ground arith)) ∙ e in cc
    | inr few ↦
        Reached-IsLargest (suc n) m w (λ k. omega (arith, all k))
          (find_maxfd-Reached (suc n * 2) 0 (suc n) 0 w m refl (omega arith)
            (sym (maxfd_few n w (ground arith)) ∙ e))
  ]
  nfds_to_maxfd-IsLargest (negsuc n) m w all e = absurd (omega (arith, all 0))

  -- The search does not end before `top` without a result, if the count is complete there.
  find_maxfd-finds :
      (rounds fd nfds found top : ℕ) (w : K.World)
      → found ≡ count K fd w
      → top ≡ fd + rounds
      → nfds ≤ count K top w
      → found < nfds
      → (m : ℤ) × (find_maxfd target K rounds fd nfds found w ≡ some m)
  find_maxfd-finds zero fd nfds found top w c end full few =
      let here : top ≡ fd = omega arith in
      absurd (omega (arith, subst (λ t. nfds ≤ count K t w) here full))
  find_maxfd-finds (suc rounds) fd nfds found top w c end full few =
      elim (Bool-cases (is_fd_valid K (pos fd) w)) [
        | inr closed ↦
            let (m, e) =
              find_maxfd-finds rounds (suc fd) nfds found top w (c ∙ sym (count-skip K fd w closed))
                (omega arith) full few in
            (m, find_skip target K rounds fd nfds found w closed ∙ e)
        | inl opened ↦ elim (Bool-cases (leb nfds (found + 1))) [
          | inl enough ↦ (pos fd, find_open target K rounds fd nfds found w opened (ground arith))
          | inr more ↦
              let (m, e) =
                find_maxfd-finds rounds (suc fd) nfds (found + 1) top w
                  (omega (arith, count-suc K fd w opened)) (omega arith) full (ground arith) in
              (m, find_more target K rounds fd nfds found w opened (ground arith) ∙ e)
        ]
      ]

  -- Given their number, which is below 100, `nfds_to_maxfd` finds the largest open descriptor if all of
  -- them lie below the double of the number.
  pub nfds_to_maxfd-finds :
      (n : ℕ) (w : K.World)
      → suc n < 100
      → ((k : ℕ) → count K k w ≤ suc n)
      → suc n ≤ count K (suc n * 2) w
      → (m : ℤ) × (nfds_to_maxfd target K (pos (suc n)) w ≡ some m) × IsLargest K m w
  unfolding count
  nfds_to_maxfd-finds n w lt all full =
      let (m, e) =
        find_maxfd-finds (suc n * 2) 0 (suc n) 0 (suc n * 2) w refl (omega arith) full
          (omega arith) in
      let found = maxfd_few n w lt ∙ e in
      (m, found, nfds_to_maxfd-IsLargest (pos (suc n)) m w (λ k. omega (arith, all k)) found)
