-- ===== src/Kernel/Toy.antt =====
-- A small kernel with ten descriptors, to run the model in tests and to show that the assumptions of
-- `Kernel.Laws` can be met. Its directory of descriptors gives one entry at a time.
pub mod Lawful
pub mod Directory
pub mod Exact
pub mod Opening
pub mod Bounded
use Prim.Native.String.{String}
use close_fds.Base.{
  ℕ, zero, suc, ◌+◌, ◌-◌, Bool, true, false, not, ◌&&◌, ◌||◌, Option, none, some, List, [], ◌∷◌,
  if◌then◌else◌, ltb, leb, ◌==◌, ℤ, pos, negsuc, pos_part, leb_ℤ, ltb_ℤ, eqb_ℤ,
}
use close_fds.Kernel.{Kernel}
use close_fds.Kernel.Flags.{with_cloexec}

pub record World : Type 0 where
  -- the flags of an open descriptor, negative for a closed one
  pub table : ℤ → ℤ
  -- whether `close_range` is there, and whether the directory is
  pub has_range : Bool
  pub has_directory : Bool
  -- the position in the directory
  pub cursor : ℕ

-- Only the descriptors 0 to 9 exist.
abbrev pub is_fd : ℤ → Bool
is_fd fd = leb_ℤ (pos 0) fd && ltb_ℤ fd (pos 10)

abbrev pub getfd : ℤ → World → ℤ
getfd fd w =
    if is_fd fd then (if leb_ℤ (pos 0) (w.table fd) then w.table fd else negsuc 0) else negsuc 0

abbrev close_where : (ℤ → Bool) → World → World
close_where p w = record w { table = λ fd. if p fd then negsuc 0 else w.table fd }

abbrev in_range : ℕ → ℕ → ℤ → Bool
in_range first last fd = leb_ℤ (pos first) fd && leb_ℤ fd (pos last)

abbrev mark_where : (ℤ → Bool) → World → World
mark_where p w = record w { table = λ fd. if p fd then with_cloexec (w.table fd) else w.table fd }

abbrev close_range : ℕ → ℕ → ℕ → World → ℤ × World
close_range first last flags w =
    if w.has_range && leb first last
    then (
      pos 0,
      if flags == 4
          then mark_where (in_range first last) w
          else close_where (in_range first last) w,
    )
    else (negsuc 0, w)

-- The first descriptor from `fd` on that is open, or is closed, among the `rounds` next ones.
unfoldable pub find_fd : ℕ → ℕ → Bool → World → Option ℕ
find_fd zero fd opened w = none
find_fd (suc rounds) fd opened w =
    let rest = find_fd rounds (suc fd) opened w in
    if leb_ℤ (pos 0) (getfd (pos fd) w)
    then (if opened then some fd else rest)
    else (if opened then rest else some fd)

-- The number of open descriptors below a bound.
unfoldable pub open_count : ℕ → World → ℕ
open_count zero w = 0
open_count (suc n) w =
    let rest = open_count n w in if leb_ℤ (pos 0) (getfd (pos n) w) then rest + 1 else rest

unfoldable pub open_path : String → Bool → World → ℤ × World
unfolding find_fd
open_path path directory w =
    if w.has_directory
    then elim (find_fd 10 0 false w) [
      | none ↦ (negsuc 0, w)
      | some fd ↦ (
        pos fd,
        record w { table = λ j. if eqb_ℤ j (pos fd) then pos 1 else w.table j; cursor = 0 },
      )
    ]
    else (negsuc 0, w)

unfoldable pub getdents : ℤ → List ℕ → World → ℤ × List ℕ × World
unfolding find_fd
getdents dirfd buf w = elim (find_fd (10 - w.cursor) w.cursor true w) [
  | none ↦ (pos 0, buf, w)
  | some fd ↦ (pos 2, (b'0' + fd) ∷ 0 ∷ [], record w { cursor = suc fd })
]

abbrev pub toy : Kernel
toy = record {
  World = World;
  close = λ fd. close_where (eqb_ℤ fd);
  closefrom = λ lowfd. close_where (leb_ℤ lowfd);
  close_range = close_range;
  errno = λ w. pos 22;
  getfd = getfd;
  setfd = λ fd flags w. record w {
    table = λ j. if eqb_ℤ fd j && leb_ℤ (pos 0) (w.table j) then flags else w.table j;
  };
  maxfd = λ w. (pos 9, pos 0);
  open_max = λ w. pos 10;
  proc_nfds = λ w. (pos 0, pos (open_count 10 w));
  osreldate = λ w. (pos 0, if w.has_range then pos 1300000 else pos 1100000);
  getdtablecount = λ w. pos (open_count 10 w);
  uname_release = λ w. b'6' ∷ 0 ∷ [];
  open_path = open_path;
  stat_dev = λ path w. some 1;
  fstat_dev = λ fd w. some 2;
  getdents = getdents;
  dirent_size = 2;
  d_name = λ bytes. bytes;
  d_reclen = λ bytes. 2;
}

-- The descriptors 0 to 6 and 8 are open.
abbrev pub sample : Bool → Bool → World
sample has_range has_directory = record {
  table = λ fd. if leb_ℤ fd (pos 6) || eqb_ℤ fd (pos 8) then pos 0 else negsuc 0;
  has_range = has_range;
  has_directory = has_directory;
  cursor = 0;
}
