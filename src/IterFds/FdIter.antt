-- ===== src/IterFds/FdIter.antt =====
-- src/iterfds/fditer.rs: the iterator that a caller gets. It reads the directory, if there is one, and
-- falls back on a loop up to the largest descriptor that may be open.
pub mod MaxFd
pub mod Limits
pub mod Bounded
pub mod Search
pub mod Given
pub mod Hint
pub mod Fused
pub mod Exact
use close_fds.Base.{
  ℕ, zero, suc, ◌+◌, ◌-◌, ◌*◌, Bool, not, ◌&&◌, ◌||◌, Option, none, some, if◌then◌else◌, leb, ℤ,
  pos, negsuc, pos_part, ◌+ℤ◌, leb_ℤ, ltb_ℤ, eqb_ℤ, int_max, wrap_int, as_usize, Action, pure,
  ◌>>=◌, ◌>>◌, ok, err,
}
use close_fds.Target.{Target, has_nfds, is_freebsd, is_netbsd}
use close_fds.Kernel.{Kernel}
use close_fds.Process.{Process}
use close_fds.Sys.{is_fd_valid}
use close_fds.IterFds.DirFd
use close_fds.IterFds.DirFd.{DirFdIter}

-- Fields that a system does not have keep their first value there.
pub record FdIter : Type 0 where
  pub dirfd_iter : Option DirFdIter
  pub curfd : ℤ
  pub possible : Bool
  pub maxfd : Option ℤ
  pub skip_nfds : Bool

unfoldable pub is_possible_iter : FdIter → Bool
is_possible_iter it = it.possible

module _ (target : Target) (K : Kernel) where
  unfoldable pub get_nfds : K.World → Option ℤ
  unfolding is_freebsd
  get_nfds w =
      if is_freebsd target
      then (if eqb_ℤ (K.proc_nfds w).0 (pos 0) then some (K.proc_nfds w).1 else none)
      else some (K.getdtablecount w)

  -- The loop `for fd in 0..(nfds * 2)`, by the rounds left.
  unfoldable pub find_maxfd : ℕ → ℕ → ℕ → ℕ → K.World → Option ℤ
  unfolding is_fd_valid
  find_maxfd zero fd nfds nfds_found w = none
  find_maxfd (suc rounds) fd nfds nfds_found w =
      let found = if is_fd_valid K (pos fd) w then nfds_found + 1 else nfds_found in
      let rest = find_maxfd rounds (fd + 1) nfds found w in
      if is_fd_valid K (pos fd) w && leb nfds found then some (pos fd) else rest

  unfoldable pub nfds_to_maxfd : ℤ → K.World → Option ℤ
  unfolding find_maxfd
  nfds_to_maxfd nfds w =
      if eqb_ℤ nfds (pos 0)
      then some (negsuc 0)
      else if ltb_ℤ nfds (pos 0)
      then none
      else if leb_ℤ (pos 100) nfds
      then none
      else find_maxfd (pos_part nfds * 2) 0 (pos_part nfds) 0 w

  -- `fdlimit.max(1024).min(65536) as c_int - 1`
  unfoldable pub clamp_limit : ℤ → ℤ
  clamp_limit fdlimit =
      if ltb_ℤ fdlimit (pos 1024)
      then pos 1023
      else if ltb_ℤ (pos 65536) fdlimit
      then pos 65535
      else pos (pos_part fdlimit - 1)

  -- The answer of `fcntl(0, F_MAXFD)`, if the call succeeded.
  unfoldable pub netbsd_maxfd : K.World → Option ℤ
  netbsd_maxfd w =
      let (maxfd, errno) = K.maxfd w in
      if leb_ℤ (pos 0) maxfd
      then some maxfd
      else if eqb_ℤ maxfd (negsuc 0) && eqb_ℤ errno (pos 0)
      then some (negsuc 0)
      else none

  -- The largest open descriptor, if the system has a way to tell.
  unfoldable pub system_maxfd : FdIter → K.World → Option ℤ
  unfolding netbsd_maxfd get_nfds nfds_to_maxfd has_nfds is_netbsd
  system_maxfd it w =
      if is_netbsd target
      then netbsd_maxfd w
      else if has_nfds target && not it.skip_nfds
      then elim (get_nfds w) [ none ↦ none | some nfds ↦ nfds_to_maxfd nfds w ]
      else none

  unfoldable pub get_maxfd_direct : FdIter → K.World → ℤ
  unfolding system_maxfd clamp_limit
  get_maxfd_direct it w = elim (system_maxfd it w) [
    | some maxfd ↦ maxfd
    | none ↦ clamp_limit (K.open_max w)
  ]

  -- The number, and the iterator that remembers it.
  unfoldable pub get_maxfd : FdIter → K.World → ℤ × FdIter
  unfolding get_maxfd_direct
  get_maxfd it w = elim it.maxfd [
    | some maxfd ↦ (maxfd, it)
    | none ↦ let maxfd = get_maxfd_direct it w in (maxfd, record it { maxfd = some maxfd })
  ]

  -- The loop `while self.curfd <= maxfd`, with fuel. It changes nothing but `curfd`.
  unfoldable pub scan : ℕ → ℤ → FdIter → Action (Process K) (Option ℤ × FdIter)
  unfolding is_fd_valid wrap_int ◌+ℤ◌
  scan zero maxfd it p = none
  scan (suc fuel) maxfd it p =
      let it' = record it { curfd = wrap_int (it.curfd +ℤ pos 1) } in
      let rest = scan fuel maxfd it' p in
      if leb_ℤ it.curfd maxfd
      then (if it.possible || is_fd_valid K it.curfd p.world
          then some ((some it.curfd, it'), p)
          else rest)
      else some ((none, it), p)

  -- `next` without the directory.
  unfoldable pub next_possible : ℕ → FdIter → Action (Process K) (Option ℤ × FdIter)
  unfolding get_maxfd scan
  next_possible fuel it p = let (maxfd, it') = get_maxfd it p.world in scan fuel maxfd it' p

  unfoldable pub next : ℕ → FdIter → Action (Process K) (Option ℤ × FdIter)
  unfolding next_possible DirFd.next DirFd.drop_iter
  next fuel it = elim it.dirfd_iter [
    | none ↦ next_possible fuel it
    | some dfd_iter ↦ do
      (result, dfd_iter') ← DirFd.next K fuel dfd_iter
      elim result [
        | ok (some fd) ↦
            pure
              (some fd, record it { dirfd_iter = some dfd_iter'; curfd = wrap_int (fd +ℤ pos 1) })
        | ok none ↦ pure (none, record it { dirfd_iter = some dfd_iter' })
        | err ↦ DirFd.drop_iter K dfd_iter' >> next_possible fuel (record it { dirfd_iter = none })
      ]
  ]

  -- The lower and the upper bound, with fuel for the entries in the buffer.
  unfoldable pub size_hint : ℕ → FdIter → Option (ℕ × ℕ)
  unfolding DirFd.size_hint
  size_hint fuel it = elim it.dirfd_iter [
    | some dfd_iter ↦ DirFd.size_hint K fuel dfd_iter
    | none ↦ elim it.maxfd [
      | none ↦ some (0, pos_part int_max)
      | some maxfd ↦
          if eqb_ℤ maxfd (negsuc 0)
          then some (0, 0)
          else let diff = as_usize maxfd + 1 - as_usize it.curfd in
            some (if it.possible then diff else 0, diff)
    ]
  ]

  -- The end of the iterator's life drops the directory iterator.
  unfoldable pub drop_fd_iter : FdIter → Action (Process K) (Unit {0})
  unfolding DirFd.drop_iter
  drop_fd_iter it = elim it.dirfd_iter [
    | none ↦ pure tt
    | some dfd_iter ↦ DirFd.drop_iter K dfd_iter
  ]

  -- `min(mut self)`: the iterator is dropped behind its first element.
  unfoldable pub min_fd : ℕ → FdIter → Action (Process K) (Option ℤ)
  unfolding next drop_fd_iter
  min_fd fuel it = do (fd, it') ← next fuel it; drop_fd_iter it'; pure fd

  -- `max(self)` is `last()`: all elements are taken, and the last one is remembered.
  unfoldable pub last_from : ℕ → ℕ → Option ℤ → FdIter → Action (Process K) (Option ℤ)
  unfolding next drop_fd_iter
  last_from zero fuel last it = λ p. none
  last_from (suc rounds) fuel last it = do
    (fd, it') ← next fuel it
    elim fd [ none ↦ drop_fd_iter it' >> pure last | some fd ↦ last_from rounds fuel (some fd) it' ]

  unfoldable pub max_fd : ℕ → FdIter → Action (Process K) (Option ℤ)
  unfolding last_from
  max_fd fuel it = last_from fuel fuel none it
