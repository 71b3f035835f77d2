-- ===== src/IterFds/DirFd.antt =====
-- src/iterfds/dirfd.rs: the descriptors as the entries of a directory such as /proc/self/fd. A byte is
-- a number below 256. Offsets into the buffer do not wrap: they stay below its few hundred bytes.
pub mod Parse
pub mod Decimal
pub mod Laws
pub mod Listing
pub mod Reading
pub mod Refill
pub mod Exact
pub mod Gives
pub mod Hint
pub mod Tests
pub mod Opened
use close_fds.Base.{
  replicate, ℕ, zero, suc, ◌+◌, ◌-◌, ◌*◌, Bool, true, false, not, ◌&&◌, ◌||◌, Option, none, some,
  List, [], ◌∷◌, if◌then◌else◌, ◌==◌, leb, ltb, ℤ, pos, negsuc, pos_part, leb_ℤ, ltb_ℤ, eqb_ℤ, drop,
  int_max, Action, pure, ◌>>=◌, ◌>>◌, Result, ok, err,
}
use close_fds.Target.{
  Target, linux, macos, ios, freebsd, netbsd, openbsd, dragonfly, solaris, illumos, other_unix,
}
use close_fds.Kernel.{Kernel}
use close_fds.Process.{Process, sys_read, sys_call, sys_result}
use close_fds.Sys.{c_string, is_wsl_1}

-- `num.checked_mul(10)?.checked_add(digit)?`, for a `num` that is not negative
unfoldable pub checked_digit : ℕ → ℕ → Option ℕ
checked_digit num digit =
    if ltb (pos_part int_max) (num * 10)
    then none
    else if ltb (pos_part int_max) (num * 10 + digit)
    then none
    else some (num * 10 + digit)

-- The loop of `parse_int_bytes`.
unfoldable pub parse_loop : List ℕ → ℕ → Bool → Option ℤ
unfolding checked_digit
parse_loop [] num seen_any = if seen_any then some (pos num) else none
parse_loop (ch ∷ rest) num seen_any =
    if leb b'0' ch && leb ch b'9'
    then elim (checked_digit num (ch - b'0')) [
      | none ↦ none
      | some num' ↦ parse_loop rest num' true
    ]
    else none

unfoldable pub parse_int_bytes : List ℕ → Option ℤ
unfolding parse_loop
parse_int_bytes it = parse_loop it 0 false

pub record DirFdIter : Type 0 where
  pub minfd : ℤ
  pub dirfd : ℤ
  pub dirent_buf : List ℕ
  pub dirent_nbytes : ℕ
  pub dirent_offset : ℕ

module _ (target : Target) (K : Kernel) where
  -- `/dev/fd` is trusted if it lies on another device than `/dev`.
  unfoldable pub is_fdescfs : ℤ → K.World → Bool
  is_fdescfs dirfd w = elim (K.stat_dev "/dev" w) [
    | none ↦ false
    | some dev ↦ elim (K.fstat_dev dirfd w) [ none ↦ false | some devfd ↦ not (dev == devfd) ]
  ]

  -- The descriptor of the directory; negative if it cannot be opened or cannot be trusted.
  unfoldable pub open_dirfd : Target → Action (Process K) ℤ
  unfolding is_wsl_1 is_fdescfs
  open_dirfd linux = do
    wsl_1 ← is_wsl_1 K
    if wsl_1 then pure (negsuc 0) else sys_result (K.open_path "/proc/self/fd" true)
  open_dirfd freebsd = do
    dirfd ← sys_result (K.open_path "/dev/fd" true)
    trusted ← sys_read (is_fdescfs dirfd)
    if leb_ℤ (pos 0) dirfd && not trusted
        then sys_call (K.close dirfd) >> pure (negsuc 0)
        else pure dirfd
  open_dirfd netbsd = sys_result (K.open_path "/proc/self/fd" true)
  open_dirfd macos = sys_result (K.open_path "/dev/fd" true)
  open_dirfd ios = sys_result (K.open_path "/dev/fd" true)
  open_dirfd solaris = do
    fd ← sys_result (K.open_path "/dev/fd" false)
    if ltb_ℤ fd (pos 0) then sys_result (K.open_path "/proc/self/fd" false) else pure fd
  open_dirfd illumos = do
    fd ← sys_result (K.open_path "/dev/fd" false)
    if ltb_ℤ fd (pos 0) then sys_result (K.open_path "/proc/self/fd" false) else pure fd
  open_dirfd openbsd = pure (negsuc 0)
  open_dirfd dragonfly = pure (negsuc 0)
  open_dirfd other_unix = pure (negsuc 0)

  -- `DirFdIter::open`
  unfoldable pub open_iter : ℤ → Action (Process K) (Option DirFdIter)
  unfolding open_dirfd
  open_iter minfd = do
    dirfd ← open_dirfd target
    pure (
        if leb_ℤ (pos 0) dirfd
        then some (record {
          minfd = minfd;
          dirfd = dirfd;
          dirent_buf = replicate K.dirent_size 0;
          dirent_nbytes = 0;
          dirent_offset = 0;
        })
        else none)

module _ (K : Kernel) where
  -- The descriptor that the entry at an offset names, if it names one, and the entry's length.
  unfoldable pub get_entry_info : DirFdIter → ℕ → Option ℤ × ℕ
  unfolding parse_int_bytes c_string
  get_entry_info it offset =
      let entry = drop offset it.dirent_buf in
      (parse_int_bytes (c_string (K.d_name entry)), K.d_reclen entry)

  -- What a call of `next` gives: the result, and the iterator after it.
  abbrev pub NextResult : Type 0
  NextResult = Result (Option ℤ) × DirFdIter

  -- The entry at the offset: it is returned, or the loop goes on behind it.
  unfoldable pub take_entry :
      (DirFdIter → Action (Process K) NextResult) → DirFdIter → Action (Process K) NextResult
  unfolding get_entry_info
  take_entry continue it =
      let (entry, reclen) = get_entry_info it it.dirent_offset in
      let it' = record it { dirent_offset = it.dirent_offset + reclen } in
      elim entry [
        | none ↦ continue it'
        | some fd ↦
            if leb_ℤ it.minfd fd && not (eqb_ℤ fd it.dirfd)
            then pure (ok (some fd), it')
            else continue it'
      ]

  -- A new buffer: the loop goes on in it, or it ends with the directory or with an error.
  unfoldable pub refill :
      (DirFdIter → Action (Process K) NextResult) → DirFdIter → Action (Process K) NextResult
  refill continue it = do
    (nbytes, buf) ←
        sys_result (λ w. let (n, b, w') = K.getdents it.dirfd it.dirent_buf w in ((n, b), w'))
    elim nbytes [
      | pos zero ↦
          sys_call (K.close it.dirfd)
          >> pure (ok none, record it { dirfd = negsuc 0; dirent_buf = buf })
      | pos (suc n) ↦
          continue (record it { dirent_buf = buf; dirent_nbytes = suc n; dirent_offset = 0 })
      | negsuc n ↦ pure (err, record it { dirent_buf = buf })
    ]

  -- The loop of `next`, with fuel for its rounds.
  unfoldable pub next_loop : ℕ → DirFdIter → Action (Process K) NextResult
  unfolding take_entry refill
  next_loop zero it = λ p. none
  next_loop (suc fuel) it =
      if leb it.dirent_nbytes it.dirent_offset
      then refill (take_entry (next_loop fuel)) it
      else take_entry (next_loop fuel) it

  unfoldable pub next : ℕ → DirFdIter → Action (Process K) NextResult
  unfolding next_loop
  next fuel it = if ltb_ℤ it.dirfd (pos 0) then pure (ok none, it) else next_loop fuel it

  -- The loop of `size_hint` over the entries that are left in the buffer, with fuel.
  unfoldable pub count_entries : ℕ → DirFdIter → ℕ → ℕ → Option ℕ
  unfolding get_entry_info
  count_entries zero it dirent_offset low = none
  count_entries (suc fuel) it dirent_offset low =
      let (entry, reclen) = get_entry_info it dirent_offset in
      let rest =
        count_entries fuel it (dirent_offset + reclen)
          (elim entry [ none ↦ low | some fd ↦ if eqb_ℤ fd it.dirfd then low else low + 1 ]) in
      if ltb dirent_offset it.dirent_nbytes then rest else some low

  -- The bounds on the number of descriptors to come.
  unfoldable pub size_hint : ℕ → DirFdIter → Option (ℕ × ℕ)
  unfolding count_entries
  size_hint fuel it =
      if ltb_ℤ it.dirfd (pos 0)
      then some (0, 0)
      else elim (count_entries fuel it it.dirent_offset 0) [
        | none ↦ none
        | some low ↦ some (low, pos_part int_max)
      ]

  -- `Drop for DirFdIter`
  unfoldable pub drop_iter : DirFdIter → Action (Process K) (Unit {0})
  drop_iter it = if leb_ℤ (pos 0) it.dirfd then sys_call (K.close it.dirfd) else pure tt
