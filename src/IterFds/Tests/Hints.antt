-- ===== src/IterFds/Tests/Hints.antt =====
-- What `size_hint` says at each step of the tests of src/iterfds/mod.rs, against what the iterator gives.
use close_fds.Base.{
  ℕ, zero, suc, ◌+◌, ◌-◌, ◌≤◌, ◌<◌, ◌≡◌, refl, sym, ◌∙◌, inl, inr, Bool-cases, Option, none, some,
  arith, ℤ, pos, negsuc, ◌≤ℤ◌, ◌<ℤ◌, int_max, pos_part, one_part, Returns, Returns-mono,
  Returns-both, IfReturns, length,
}
use mathlib.Core.Path.{subst}
use close_fds.Target.{Target}
use close_fds.Kernel.{Kernel}
use close_fds.Kernel.Laws.{IsTable}
use close_fds.Process.{Process}
use close_fds.IterFds.DirFd
use close_fds.IterFds.DirFd.{DirFdIter}
use close_fds.IterFds.DirFd.Laws.{IsDirectory}
use close_fds.IterFds.DirFd.Hint.{size_hint-Gives}
use close_fds.IterFds.FdIter
use close_fds.IterFds.FdIter.{FdIter}
use close_fds.IterFds.FdIter.Bounded.{get_maxfd_direct-IsMax}
use close_fds.IterFds.FdIter.Limits.{IsBounded}
use close_fds.IterFds.FdIter.Given.{room}
use close_fds.IterFds.FdIter.Hint.{size_hint-room, size_hint-given}
use close_fds.IterFds.FdIter.Fused.{IfAny, LimitOf, AtEnd, next-AtEnd}
use close_fds.IterFds.Contract.{IsIterator}
use close_fds.IterFds.Scan.{IsScan}
use close_fds.IterFds.Clamped.{I}
use close_fds.IterFds.Collected.{collected, collected-Collects}
use close_fds.IterFds.Tests.Counted.{Climbs-length, given-collected, Gives-collected}

module _ (target : Target) (K : Kernel) (fuel : ℕ) where
  -- The bounds enclose a number.
  abbrev pub Encloses : FdIter → ℕ → Type 0
  Encloses it n =
      (low : ℕ) × (high : ℕ) × (FdIter.size_hint target K (suc fuel) it ≡ some (low, high))
      × (low ≤ n)
      × (n ≤ high)

  -- At the end the lower bound is 0.
  abbrev pub HintsEnd : Option ℤ × FdIter → Type 0
  HintsEnd (some fd, it) = Unit
  HintsEnd (none, it) = (high : ℕ) × (FdIter.size_hint target K (suc fuel) it ≡ some (0, high))

module _ (target : Target) (K : Kernel) (T : IsTable K) (limit : ℤ) (top : ℕ)
    (L : IsBounded target K limit top) (entries : ℕ) (D : IsDirectory K entries) (fuel : ℕ)
    (enough : entries + suc top ≤ fuel) where
  abbrev J : IsIterator target K limit (suc fuel)
  J = I target K T limit top L entries D fuel enough

  abbrev Enclosed : ℕ → FdIter → Process K → Type 0
  Enclosed rounds it p =
      Returns (collected target K rounds (suc fuel) it p)
        (λ fds q. Encloses target K fuel it (length fds))

  -- There are never more than there are numbers.
  few :
      (rounds : ℕ) (it : FdIter) (p : Process K)
      → J.Good rounds it p.world
      → pos 0 ≤ℤ it.curfd
      → Returns (collected target K rounds (suc fuel) it p) (λ fds q. length fds ≤ pos_part int_max)
  few rounds it p good low =
      Returns-mono _ _ (collected target K rounds (suc fuel) it p)
        (collected-Collects target K T limit (suc fuel) J rounds it p good)
        (λ fds q collects. Climbs-length it.curfd fds low collects.0)

  scan-Enclosed :
      (rounds : ℕ) (it : FdIter) (p : Process K)
      → IsScan target K T limit top L it p.world
      → suc top - pos_part it.curfd < rounds
      → Enclosed rounds it p
  unfolding FdIter.size_hint
  scan-Enclosed zero it p good room = absurd (omega arith)
  scan-Enclosed (suc rounds) it p (unread, low, inl unknown) room =
      Returns-mono _ _ (collected target K (suc rounds) (suc fuel) it p)
        (few (suc rounds) it p (inl ((unread, low, inl unknown), room)) low)
        (λ fds q most. (0, pos_part int_max, rw (unread, unknown) refl, omega arith, most))
  scan-Enclosed (suc rounds) it p (unread, low, inr (m, known, (small, above, least))) room =
      let (lo, hi, hint, same, counts) =
        size_hint-given target K (suc fuel) rounds fuel it m p unread known least
          (omega (arith, L.tops)) low (omega (arith, one_part it.curfd, L.tops))
          (omega (arith, one_part it.curfd)) in
      Returns-mono _ _ (collected target K (suc rounds) (suc fuel) it p)
        (given-collected target K T limit (suc rounds) (suc fuel) it p (λ n. (lo ≤ n) × (n ≤ hi))
          counts)
        (λ fds q (least', most). (lo, hi, hint, least', most))

  pub Good-Enclosed :
      (rounds : ℕ) (it : FdIter) (p : Process K) → J.Good rounds it p.world → Enclosed rounds it p
  unfolding FdIter.size_hint
  Good-Enclosed rounds it p (inl (good, room)) = scan-Enclosed rounds it p good room
  Good-Enclosed rounds it p (inr (d, reads, unknown, count, low, l, small, room, began)) =
      let (n, hint, gives) =
        size_hint-Gives K entries D d it.curfd p count (suc fuel) low l began (omega arith) in
      Returns-mono _ _ (collected target K rounds (suc fuel) it p)
        (Returns-both _ _ (collected target K rounds (suc fuel) it p)
          (few rounds it p (inr (d, reads, unknown, count, low, l, small, room, began))
            l.from_min.0)
          (Gives-collected target K T limit count n rounds (suc fuel) it d p (omega arith) reads
            gives))
        (λ fds q (most, least). (n, pos_part int_max, rw reads hint, least, most))

  -- What is known of the bound of an iterator, and of one that it asks for.
  limit_least :
      (rounds : ℕ) (it : FdIter) (w : K.World) (m : ℤ)
      → J.Good rounds it w
      → LimitOf target K it m
      → negsuc 0 ≤ℤ m
  limit_least rounds it w m good (inr (i, v, same)) =
      subst (λ k. negsuc 0 ≤ℤ k) (sym same) (get_maxfd_direct-IsMax target K T limit top L i v).2
  limit_least rounds it w m (inl ((unread, low, inl unknown), room)) (inl known) = cc
  limit_least rounds it w m (inl ((unread, low, inr (m', known', (small, above, least))), room))
        (inl known) =
      let same : m' ≡ m = cc in subst (λ k. negsuc 0 ≤ℤ k) same least
  limit_least rounds it w m (inr (d, reads, unknown, count, low, l, small, room, began))
        (inl known) =
      cc

  AtEnd-HintsEnd :
      (rounds : ℕ) (it : FdIter) (w : K.World) (a : Option ℤ × FdIter)
      → J.Good rounds it w
      → AtEnd target K it a
      → HintsEnd target K fuel a
  unfolding FdIter.size_hint DirFd.size_hint
  AtEnd-HintsEnd rounds it w (some fd, it') good end = tt
  AtEnd-HintsEnd rounds it w (none, it') good (inl (d, reads, shut)) = (0, rw (reads, shut) refl)
  AtEnd-HintsEnd rounds it w (none, it') good (inr (m, of, (unread, known, over))) =
      let least : negsuc 0 ≤ℤ m = limit_least rounds it w m good of in
      let past : m <ℤ it'.curfd = ground arith in
      let empty : room target K m it'.curfd ≡ 0 = omega (arith, one_part m, one_part it'.curfd) in
      (
        0,
        size_hint-room target K (suc fuel) it' m unread known least (omega (arith, least, past))
            ∙ elim (Bool-cases it'.possible) [
              | inl possible ↦ rw (possible, empty) refl
              | inr checked ↦ rw (checked, empty) refl
            ],
      )

  pub next-HintsEnd :
      (rounds : ℕ) (it : FdIter) (p : Process K)
      → J.Good rounds it p.world
      → IfReturns (FdIter.next target K (suc fuel) it p) (λ a q. HintsEnd target K fuel a)
  next-HintsEnd rounds it p good =
      ended (FdIter.next target K (suc fuel) it p) (next-AtEnd target K (suc fuel) it p)
    where
      ended :
          (o : Option ((Option ℤ × FdIter) × Process K))
          → IfAny (AtEnd target K it) o
          → IfReturns o (λ a q. HintsEnd target K fuel a)
      ended none h = tt
      ended (some (a, q)) h = AtEnd-HintsEnd rounds it p.world a good h
