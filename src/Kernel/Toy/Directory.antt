-- ===== src/Kernel/Toy/Directory.antt =====
-- The directory of the small kernel meets the assumptions of `IterFds.DirFd.Laws`.
use Prim.Native.String.{String}
use close_fds.Base.{
  Bool, ℕ, zero, suc, ◌+◌, ◌-◌, ◌≤◌, ◌<◌, ◌≡◌, refl, sym, ◌∙◌, ap, inl, inr, true, false, Option,
  none, some, List, [], ◌∷◌, arith, ℤ, pos, negsuc, ◌≤ℤ◌, ◌<ℤ◌, leb_ℤ, ltb_ℤ, leb, ◌==◌, ◌&&◌,
  eqb_ℤ, eqb_ℤ-iff, pos_part, int_max, if◌then◌else◌, Bool-cases,
}
use close_fds.Target.{Target}
use close_fds.Kernel.Toy.{World, toy, getfd, find_fd, getdents, open_path}
use close_fds.Sys.{c_string}
use close_fds.IterFds.DirFd.Decimal.{decimal-digit}
use close_fds.IterFds.DirFd.Laws.{Free, Entries, IsDirectory, Opening, Opens}

-- The next open descriptor.
abbrev pub Finds : ℕ → ℕ → World → Option ℕ → Type 0
Finds rounds fd w none = Free toy (pos fd) (pos (fd + rounds)) w
Finds rounds fd w (some n) =
    (fd ≤ n) × (n < fd + rounds) × (pos 0 ≤ℤ getfd (pos n) w) × Free toy (pos fd) (pos n) w

closed_if : (j : ℤ) (w : World) → leb_ℤ (pos 0) (getfd j w) ≡ false → getfd j w ≡ negsuc 0
closed_if j w e = ground arith

here :
    (w : World) (fd : ℕ) (j : ℤ)
    → leb_ℤ (pos 0) (getfd (pos fd) w) ≡ false
    → pos fd ≤ℤ j
    → j <ℤ pos (suc fd)
    → getfd j w ≡ negsuc 0
here w fd j shut from below =
    sym (ap (λ i. getfd i w) ((eqb_ℤ-iff (pos fd) j).0 (ground arith))) ∙ closed_if (pos fd) w shut

below_suc :
    (w : World) (fd : ℕ) (high : ℤ)
    → leb_ℤ (pos 0) (getfd (pos fd) w) ≡ false
    → Free toy (pos (suc fd)) high w
    → Free toy (pos fd) high w
below_suc w fd high shut free j from below = elim (Bool-cases (leb_ℤ (pos (suc fd)) j)) [
  | inl above ↦ free j (ground arith) below
  | inr under ↦ here w fd j shut from (ground arith)
]

later :
    (w : World) (rounds fd : ℕ) (o : Option ℕ)
    → leb_ℤ (pos 0) (getfd (pos fd) w) ≡ false
    → Finds rounds (suc fd) w o
    → Finds (suc rounds) fd w o
later w rounds fd none shut free =
    λ j from below. below_suc w fd (pos (suc fd + rounds)) shut free j from (omega arith)
later w rounds fd (some n) shut (le, lt, opened, free) =
    (omega arith, omega arith, opened, below_suc w fd (pos n) shut free)

pub find_fd-Finds : (rounds fd : ℕ) (w : World) → Finds rounds fd w (find_fd rounds fd true w)
unfolding find_fd
find_fd-Finds zero fd w = λ j from below. absurd (omega arith)
find_fd-Finds (suc rounds) fd w = elim (Bool-cases (leb_ℤ (pos 0) (getfd (pos fd) w))) [
  | inl open_fd ↦
      rw open_fd (omega arith, omega arith, ground arith, λ j from below. absurd (omega arith))
  | inr shut ↦
      rw shut
        (later w rounds fd (find_fd rounds (suc fd) true w) shut (find_fd-Finds rounds (suc fd) w))
]

-- The first free descriptor.
abbrev pub Frees : ℕ → ℕ → World → Option ℕ → Type 0
Frees rounds fd w none = Unit
Frees rounds fd w (some n) = (n < fd + rounds) × (getfd (pos n) w ≡ negsuc 0)

Frees-suc :
    (rounds fd : ℕ) (w : World) (o : Option ℕ)
    → Frees rounds (suc fd) w o
    → Frees (suc rounds) fd w o
Frees-suc rounds fd w none h = tt
Frees-suc rounds fd w (some n) (lt, free) = (omega arith, free)

pub find_fd-Frees : (rounds fd : ℕ) (w : World) → Frees rounds fd w (find_fd rounds fd false w)
unfolding find_fd
find_fd-Frees zero fd w = tt
find_fd-Frees (suc rounds) fd w = elim (Bool-cases (leb_ℤ (pos 0) (getfd (pos fd) w))) [
  | inl opened ↦
      rw opened
        (Frees-suc rounds fd w (find_fd rounds (suc fd) false w) (find_fd-Frees rounds (suc fd) w))
  | inr shut ↦ rw shut (omega arith, closed_if (pos fd) w shut)
]

pub digit_name : (fd : ℕ) → c_string ((b'0' + fd) ∷ 0 ∷ []) ≡ (b'0' + fd) ∷ []
unfolding c_string
digit_name fd = let digit : (b'0' + fd == 0) ≡ false = ground arith in rw (c_string, digit) refl

abbrev pub Reads : ℤ → List ℕ → World → ℤ × List ℕ × World → Type 0
Reads d buf w (nbytes, buf', w') =
    ((j : ℤ) → getfd j w' ≡ getfd j w)
    × (nbytes ≡ pos 0 → Free toy (pos w.cursor) int_max w)
    × ((n : ℕ)
        → nbytes ≡ pos (suc n)
        → Unit {0}
          × ((count : ℕ) × (suc count + (10 - w'.cursor) ≤ 10 - w.cursor)
              × Entries toy buf' (suc n) (pos w'.cursor) w' (suc count) 0 (pos w.cursor)))

pub getdents-Reads : (d : ℤ) (buf : List ℕ) (w : World) → Reads d buf w (getdents d buf w)
unfolding getdents
getdents-Reads d buf w =
    from (find_fd (10 - w.cursor) w.cursor true w) (find_fd-Finds (10 - w.cursor) w.cursor w)
  where
    from :
        (o : Option ℕ)
        → Finds (10 - w.cursor) w.cursor w o
        → Reads d buf w (elim o as (λ _. ℤ × List ℕ × World) [
          | none ↦ (pos 0, buf, w)
          | some fd ↦ (pos 2, (b'0' + fd) ∷ 0 ∷ [], record w { cursor = suc fd })
        ])
    from none free = (
      λ j. refl,
      λ e j le lt. elim (Bool-cases (ltb_ℤ j (pos 10))) [
        | inl small ↦ free j le (ground arith)
        | inr large ↦ ground arith
      ],
      λ n e. cc,
    )
    from (some fd) (le, lt, opened, free) = (
      λ j. refl,
      λ e. cc,
      λ n e. (
        tt,
        (
          0,
          omega arith,
          (
            omega arith,
            inr (
              fd,
              digit_name fd ∙ sym (decimal-digit fd (omega arith)),
              omega arith,
              omega arith,
              free,
              (omega (arith, ap pos_part e), omega arith, λ j from below. absurd (omega arith)),
            ),
          ),
        ),
      ),
    )

pub close_range-cursor :
    (first last flags : ℕ) (w : World) → (toy.close_range first last flags w).1.cursor ≡ w.cursor
close_range-cursor first last flags w = elim (Bool-cases (w.has_range && leb first last)) [
  | inr refused ↦ rw refused refl
  | inl done ↦ elim (Bool-cases (flags == 4)) [
    | inl marked ↦ rw (done, marked) refl
    | inr closed ↦ rw (done, closed) refl
  ]
]

unfoldable pub toy-IsDirectory : IsDirectory toy 10
toy-IsDirectory = record {
  Lists = λ d w. Unit;
  cursor = λ d w. pos w.cursor;
  left = λ d w. 10 - w.cursor;
  read_lem = λ d buf w lists. getdents-Reads d buf w;
  close_lem = λ d fd w lists other. (tt, refl, refl);
  setfd_lem = λ d fd flags w lists. (tt, refl, refl);
  refused_lem = λ d first last flags w lists refused. (
    tt,
    ap pos (close_range-cursor first last flags w),
    ap (λ c. 10 - c) (close_range-cursor first last flags w),
  );
}

abbrev OpensAt : World → ℤ × World → Type 0
OpensAt w (d, v) = Opening toy 10 toy-IsDirectory w d v

first_free :
    (w : World) (o : Option ℕ)
    → Frees 10 0 w o
    → OpensAt w (elim o as (λ _. ℤ × World) [
      | none ↦ (negsuc 0, w)
      | some fd ↦ (
        pos fd,
        record w { table = λ j. if eqb_ℤ j (pos fd) then pos 1 else w.table j; cursor = 0 },
      )
    ])
unfolding toy-IsDirectory
first_free w none h = inl (omega arith, λ j. refl)
first_free w (some fd) (lt, free) =
    inr (omega arith, omega arith, free, λ j ne. ground arith, tt, omega arith, omega arith)

opened : (path : String) (directory : Bool) (w : World) → OpensAt w (open_path path directory w)
unfolding open_path toy-IsDirectory
opened path directory w = elim (Bool-cases w.has_directory) [
  | inr missing ↦ rw missing (inl (omega arith, λ j. refl))
  | inl present ↦ rw present (first_free w (find_fd 10 0 false w) (find_fd-Frees 10 0 w))
]

pub toy-Opens : (target : Target) → Opens toy target 10 toy-IsDirectory
toy-Opens target path directory w e = inl (opened path directory w)
