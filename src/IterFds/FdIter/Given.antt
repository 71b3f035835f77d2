-- ===== src/IterFds/FdIter/Given.antt =====
-- How many descriptors the iterator of src/iterfds/fditer.rs gives, if it does not read a directory.
use close_fds.Base.{
  one_part, ℕ, zero, suc, ◌+◌, ◌-◌, ◌≤◌, ◌≡◌, refl, sym, true, false, Option, none, some, arith, ℤ,
  pos, ◌≤ℤ◌, ◌<ℤ◌, ◌+ℤ◌, +ℤ_parts, leb_ℤ, ltb_ℤ, int_max, pos_part, neg_part, Action, pure, ◌>>=◌,
  Returns, Returns-bind, Returns-mono, Bool-cases, inl, inr,
}
use mathlib.Core.Path.{subst}
use close_fds.Target.{Target}
use close_fds.Kernel.{Kernel}
use close_fds.Process.{Process}
use close_fds.IterFds.FdIter
use close_fds.IterFds.FdIter.{FdIter, scan}
use close_fds.IterFds.FdIter.Search.{IsFirst, counts, scan-IsFirst}

module _ (target : Target) (K : Kernel) where
  -- How many descriptors the iterator gives: calls of `next` until there is none.
  unfoldable pub given : ℕ → ℕ → FdIter → Action (Process K) ℕ
  unfolding FdIter.next
  given zero fuel it = λ p. none
  given (suc rounds) fuel it = do
    (fd, it') ← FdIter.next target K fuel it
    elim fd [ none ↦ pure 0 | some _ ↦ (given rounds fuel it' >>= λ n. pure (suc n)) ]

  -- How many descriptors there are from `curfd` up to `maxfd`.
  abbrev pub room : ℤ → ℤ → ℕ
  room maxfd curfd = pos_part maxfd + 1 - neg_part maxfd - pos_part curfd

  abbrev pub Within : ℤ → FdIter → ℕ → Type 0
  Within m it n = (n ≤ room m it.curfd) × (it.possible ≡ true → n ≡ room m it.curfd)

  next-scan :
      (fuel : ℕ) (it : FdIter) (m : ℤ) (p : Process K)
      → it.dirfd_iter ≡ none
      → it.maxfd ≡ some m
      → FdIter.next target K fuel it p ≡ scan target K fuel m it p
  unfolding FdIter.next FdIter.next_possible FdIter.get_maxfd
  next-scan fuel it m p unread known = rw (unread, known) refl

  -- The iterator behind a descriptor that it gave.
  abbrev behind : FdIter → ℤ → FdIter
  behind it fd = record it { curfd = fd +ℤ pos 1 }

  Within-none :
      (it it' : FdIter) (m : ℤ) (p : Process K)
      → pos 0 ≤ℤ it.curfd
      → IsFirst target K m it p (none, it')
      → Within m it 0
  Within-none it it' m p low first = (
    omega arith,
    λ possible. elim (Bool-cases (leb_ℤ it.curfd m)) [
      | inl more ↦
          let miss : counts target K m it p it.curfd ≡ false =
            first.2 it.curfd (omega arith) (ground arith) in
          absurd (ground arith)
      | inr over ↦
          let past : m <ℤ it.curfd = ground arith in omega (arith, one_part it.curfd, one_part m)
    ],
  )

  Within-some :
      (it it' : FdIter) (m fd : ℤ) (p : Process K) (n : ℕ)
      → pos 0 ≤ℤ it.curfd
      → IsFirst target K m it p (some fd, it')
      → Within m (behind it fd) n
      → Within m it (suc n)
  Within-some it it' m fd p n low (above, le, hit, before, left) (most, exact) = (
    omega (
      arith,
      one_part it.curfd,
      one_part fd,
      one_part m,
      +ℤ_parts fd (pos 1),
      one_part (fd +ℤ pos 1),
    ),
    λ possible.
        let at : fd ≤ℤ it.curfd = first_at possible in
        omega (
          arith,
          exact possible,
          one_part it.curfd,
          one_part fd,
          one_part m,
          +ℤ_parts fd (pos 1),
          one_part (fd +ℤ pos 1),
        ),
  )
    where
      first_at : it.possible ≡ true → fd ≤ℤ it.curfd
      first_at possible = elim (Bool-cases (ltb_ℤ it.curfd fd)) [
        | inl later ↦
            let miss : counts target K m it p it.curfd ≡ false =
              before it.curfd (omega arith) (ground arith) in
            absurd (ground arith)
        | inr here ↦ ground arith
      ]

  round :
      (rounds fuel : ℕ) (it : FdIter) (m : ℤ) (p : Process K)
      → it.dirfd_iter ≡ none
      → it.maxfd ≡ some m
      → pos 0 ≤ℤ it.curfd
      → m <ℤ int_max
      → m <ℤ pos (fuel + pos_part it.curfd)
      → ((fd : ℤ) (q : Process K)
          → it.curfd ≤ℤ fd
          → fd ≤ℤ m
          → Returns (given rounds (suc fuel) (behind it fd) q) (λ n u. Within m (behind it fd) n))
      → Returns (given (suc rounds) (suc fuel) it p) (λ n q. Within m it n)
  unfolding given
  round rounds fuel it m p unread known low small enough later =
      Returns-bind _ _ (FdIter.next target K (suc fuel) it p) _
        (subst (λ o. Returns o (λ a q. IsFirst target K m it p a))
          (sym (next-scan (suc fuel) it m p unread known))
          (Returns-mono _ _ (scan target K (suc fuel) m it p)
            (scan-IsFirst target K m fuel it p low small enough) (λ a q h. h.0)))
        after
    where
      after :
          (a : Option ℤ × FdIter) (q : Process K)
          → IsFirst target K m it p a
          → Returns
              ((elim a.0 as (λ _. Action (Process K) ℕ) [
                | none ↦ pure 0
                | some _ ↦ (given rounds (suc fuel) a.1 >>= λ n. pure (suc n))
              ])
                q)
              (λ n u. Within m it n)
      after (none, it') q first = Within-none it it' m p low first
      after (some fd, it') q first =
          Returns-bind _ _ (given rounds (suc fuel) it' q) _
            (subst (λ i. Returns (given rounds (suc fuel) i q) (λ n u. Within m (behind it fd) n))
              (sym (first.4)) (later fd q first.0 first.1))
            (λ n u within. Within-some it it' m fd p n low first within)

  pub given-Within :
      (rounds fuel : ℕ) (it : FdIter) (m : ℤ) (p : Process K)
      → it.dirfd_iter ≡ none
      → it.maxfd ≡ some m
      → pos 0 ≤ℤ it.curfd
      → m <ℤ int_max
      → m <ℤ pos (fuel + pos_part it.curfd)
      → m <ℤ pos (rounds + pos_part it.curfd)
      → Returns (given (suc rounds) (suc fuel) it p) (λ n q. Within m it n)
  given-Within zero fuel it m p unread known low small enough few =
      round zero fuel it m p unread known low small enough (λ fd q above le.
        absurd (omega (arith, above, le, few, one_part it.curfd, one_part m, one_part fd)))
  given-Within (suc rounds) fuel it m p unread known low small enough few =
      round (suc rounds) fuel it m p unread known low small enough (λ fd q above le.
        given-Within rounds fuel (behind it fd) m q unread known
          (omega (
            arith,
            above,
            one_part it.curfd,
            one_part fd,
            one_part m,
            +ℤ_parts fd (pos 1),
            one_part (fd +ℤ pos 1),
          ))
          small
          (omega (
            arith,
            above,
            one_part it.curfd,
            one_part fd,
            one_part m,
            +ℤ_parts fd (pos 1),
            one_part (fd +ℤ pos 1),
          ))
          (omega (
            arith,
            above,
            one_part it.curfd,
            one_part fd,
            one_part m,
            +ℤ_parts fd (pos 1),
            one_part (fd +ℤ pos 1),
          )))
