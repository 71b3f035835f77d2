-- ===== src/IterFds/FdIter/Hint.antt =====
-- `size_hint` of src/iterfds/fditer.rs, for an iterator that does not read a directory.
use close_fds.Base.{
  one_part, ℕ, suc, ◌+◌, ◌-◌, ◌≤◌, ◌≡◌, refl, ap, true, none, some, if◌then◌else◌, arith, ℤ, pos,
  negsuc, ◌≤ℤ◌, ◌<ℤ◌, eqb_ℤ, int_max, as_usize, pos_part, Returns, Returns-mono, Bool-cases, inl,
  inr,
}
use close_fds.Target.{Target}
use close_fds.Kernel.{Kernel}
use close_fds.Process.{Process}
use close_fds.IterFds.FdIter
use close_fds.IterFds.FdIter.{FdIter, scan}
use close_fds.IterFds.FdIter.Given.{given, room, given-Within}

as_usize_lem : (a : ℤ) → pos 0 ≤ℤ a → as_usize a ≡ pos_part a
as_usize_lem (pos n) h = refl
as_usize_lem (negsuc n) h = absurd (omega arith)

module _ (target : Target) (K : Kernel) where
  abbrev bounds : ℤ → FdIter → ℕ × ℕ
  bounds m it = (if it.possible then room target K m it.curfd else 0, room target K m it.curfd)

  pub size_hint-room :
      (hint_fuel : ℕ) (it : FdIter) (m : ℤ)
      → it.dirfd_iter ≡ none
      → it.maxfd ≡ some m
      → negsuc 0 ≤ℤ m
      → pos 0 ≤ℤ it.curfd
      → FdIter.size_hint target K hint_fuel it ≡ some (bounds m it)
  unfolding FdIter.size_hint
  size_hint-room hint_fuel it m unread known least low = elim (Bool-cases (eqb_ℤ m (negsuc 0))) [
    | inl unused ↦
        let empty : room target K m it.curfd ≡ 0 = ground (arith, one_part m) in
        rw (unread, known, unused)
          (elim (Bool-cases it.possible) [
            | inl possible ↦ rw (possible, empty) refl
            | inr checked ↦ rw (checked, empty) refl
          ])
    | inr used ↦
        let largest : as_usize m ≡ pos_part m = as_usize_lem m (ground (arith, least, used)) in
        let same : as_usize m + 1 - as_usize it.curfd ≡ room target K m it.curfd =
          ground (arith, one_part m, largest, as_usize_lem it.curfd low, used) in
        rw (unread, known, used) (ap (λ r. some (if it.possible then r else 0, r)) same)
  ]

  -- For an iterator that does not read a directory, once it knows its `maxfd`, at least -1 and below the
  -- largest `c_int`, for a `curfd` that is not negative, and with fuel for the descriptors up to `maxfd`:
  -- `size_hint` gives two bounds, equal if `possible` is set, and the number of descriptors that calls
  -- of `next` still give lies between them.
  pub size_hint-given :
      (hint_fuel rounds fuel : ℕ) (it : FdIter) (m : ℤ) (p : Process K)
      → it.dirfd_iter ≡ none
      → it.maxfd ≡ some m
      → negsuc 0 ≤ℤ m
      → m <ℤ int_max
      → pos 0 ≤ℤ it.curfd
      → m <ℤ pos (fuel + pos_part it.curfd)
      → m <ℤ pos (rounds + pos_part it.curfd)
      → (low : ℕ) × (high : ℕ) × (FdIter.size_hint target K hint_fuel it ≡ some (low, high))
        × (it.possible ≡ true → low ≡ high)
        × Returns (given target K (suc rounds) (suc fuel) it p) (λ n q. (low ≤ n) × (n ≤ high))
  size_hint-given hint_fuel rounds fuel it m p unread known least small low enough few = (
    (bounds m it).0,
    (bounds m it).1,
    size_hint-room hint_fuel it m unread known least low,
    λ possible. ground arith,
    Returns-mono _ _ (given target K (suc rounds) (suc fuel) it p)
        (given-Within target K rounds fuel it m p unread known low small enough few)
        (λ n q (most, exact). (ground (arith, exact), most)),
  )
