-- ===== src/Kernel/Toy/Opening.antt =====
-- Files opened in the small kernel, for the tests of the crate: the first free descriptor is taken.
use close_fds.Base.{
  ℕ, zero, suc, ◌+◌, ◌≤◌, ◌<◌, ◌≡◌, refl, sym, ◌∙◌, ap, inl, inr, true, false, Option, none, some,
  arith, ℤ, pos, negsuc, leb_ℤ, eqb_ℤ, if◌then◌else◌, Bool-cases,
}
use close_fds.Kernel.Opening.{IsOpened, IsOpening}
use close_fds.Kernel.Toy.{World, toy, is_fd, getfd, find_fd}
use close_fds.Kernel.Toy.Directory.{Frees, find_fd-Frees}

abbrev with_file : World → ℕ → World
with_file w fd = record w { table = λ j. if eqb_ℤ j (pos fd) then pos 0 else w.table j }

abbrev root_at : World → Option ℕ → ℤ × World
root_at w none = (negsuc 0, w)
root_at w (some fd) = (pos fd, with_file w fd)

unfoldable pub open_root : World → ℤ × World
unfolding find_fd
open_root w = root_at w (find_fd 10 0 false w)

-- The number of closed descriptors from `fd` on, among the next ones.
unfoldable free_from : ℕ → ℕ → World → ℕ
free_from zero fd w = 0
free_from (suc rounds) fd w =
    let rest = free_from rounds (suc fd) w in
    if leb_ℤ (pos 0) (getfd (pos fd) w) then rest else suc rest

free_from-cong :
    (rounds fd : ℕ) (w v : World)
    → ((n : ℕ) → fd ≤ n → n < fd + rounds → getfd (pos n) v ≡ getfd (pos n) w)
    → free_from rounds fd v ≡ free_from rounds fd w
unfolding free_from
free_from-cong zero fd w v same = refl
free_from-cong (suc rounds) fd w v same =
    let rest =
      free_from-cong rounds (suc fd) w v (λ n from below. same n (omega arith) (omega arith)) in
    rw (same fd (omega arith) (omega arith), rest) refl

-- What opening a file does to that number.
abbrev Takes : ℕ → ℕ → World → Option ℕ → Type 0
Takes rounds fd w none = free_from rounds fd w ≡ 0
Takes rounds fd w (some n) =
    (fd ≤ n) × (free_from rounds fd w ≡ suc (free_from rounds fd (with_file w n)))

other_fd :
    (w : World) (n : ℕ) (j : ℤ) → eqb_ℤ (pos n) j ≡ false → getfd j (with_file w n) ≡ getfd j w
other_fd w n j other = let away : eqb_ℤ j (pos n) ≡ false = ground (arith, other) in rw away refl

above_fd : (w : World) (n m : ℕ) → n < m → getfd (pos m) (with_file w n) ≡ getfd (pos m) w
above_fd w n m lt = other_fd w n (pos m) (ground arith)

below_fd : (w : World) (n m : ℕ) → m < n → getfd (pos m) (with_file w n) ≡ getfd (pos m) w
below_fd w n m lt = other_fd w n (pos m) (ground arith)

file_fd : (w : World) (n : ℕ) → n < 10 → getfd (pos n) (with_file w n) ≡ pos 0
file_fd w n lt =
    let exists : is_fd (pos n) ≡ true = ground arith in
    let same : eqb_ℤ (pos n) (pos n) ≡ true = ground arith in rw (exists, same) refl

free_from-live :
    (rounds fd : ℕ) (w : World)
    → leb_ℤ (pos 0) (getfd (pos fd) w) ≡ true
    → free_from (suc rounds) fd w ≡ free_from rounds (suc fd) w
unfolding free_from
free_from-live rounds fd w live = rw live refl

free_from-shut :
    (rounds fd : ℕ) (w : World)
    → leb_ℤ (pos 0) (getfd (pos fd) w) ≡ false
    → free_from (suc rounds) fd w ≡ suc (free_from rounds (suc fd) w)
unfolding free_from
free_from-shut rounds fd w shut = rw shut refl

Takes-suc :
    (rounds fd : ℕ) (w : World) (o : Option ℕ)
    → leb_ℤ (pos 0) (getfd (pos fd) w) ≡ true
    → Takes rounds (suc fd) w o
    → Takes (suc rounds) fd w o
Takes-suc rounds fd w none live h = free_from-live rounds fd w live ∙ h
Takes-suc rounds fd w (some n) live (le, taken) =
    let flags = below_fd w n fd (omega arith) in
    let live' = free_from-live rounds fd (with_file w n) (ground (arith, flags, live)) in
    (omega arith, free_from-live rounds fd w live ∙ taken ∙ ap suc (sym live'))

Takes-here :
    (rounds fd : ℕ) (w : World)
    → leb_ℤ (pos 0) (getfd (pos fd) w) ≡ false
    → fd < 10
    → Takes (suc rounds) fd w (some fd)
Takes-here rounds fd w shut lt =
    let v = with_file w fd in
    let rest : free_from rounds (suc fd) v ≡ free_from rounds (suc fd) w =
      free_from-cong rounds (suc fd) w v (λ n from below. above_fd w fd n (omega arith)) in
    let flags = file_fd w fd lt in
    let live = free_from-live rounds fd v (ground (arith, flags)) in
    (omega arith, free_from-shut rounds fd w shut ∙ ap suc (sym (live ∙ rest)))

find_fd-Takes :
    (rounds fd : ℕ) (w : World) → fd + rounds ≤ 10 → Takes rounds fd w (find_fd rounds fd false w)
unfolding find_fd free_from
find_fd-Takes zero fd w h = refl
find_fd-Takes (suc rounds) fd w h = elim (Bool-cases (leb_ℤ (pos 0) (getfd (pos fd) w))) [
  | inl live ↦
      let found = find_fd rounds (suc fd) false w in
      rw live (Takes-suc rounds fd w found live (find_fd-Takes rounds (suc fd) w (omega arith)))
  | inr shut ↦ rw shut (Takes-here rounds fd w shut (omega arith))
]

-- What is known of the answer.
root_at-IsOpened :
    (w : World) (o : Option ℕ) (n : ℕ)
    → Frees 10 0 w o
    → Takes 10 0 w o
    → suc n ≤ free_from 10 0 w
    → IsOpened toy w (root_at w o) × (n ≤ free_from 10 0 (root_at w o).1)
root_at-IsOpened w none n free taken room = absurd (omega (arith, taken, room))
root_at-IsOpened w (some fd) n (lt, free) (le, taken) room =
    let flags = file_fd w fd lt in
    (
      (omega arith, free, ground (arith, flags), ground (arith, flags), λ j. other_fd w fd j),
      omega (arith, taken, room),
    )

-- There are so many closed descriptors.
abbrev Room : ℕ → World → Type 0
Room n w = n ≤ free_from 10 0 w

pub toy-IsOpening : IsOpening toy open_root
unfolding open_root
toy-IsOpening = record {
  Room = Room;
  room_lem = λ n w v same room.
      let kept : free_from 10 0 v ≡ free_from 10 0 w =
        free_from-cong 10 0 w v (λ m from below. same (pos m) (omega arith)) in
      omega (arith, kept, room);
  open_lem = λ n w room.
      root_at-IsOpened w (find_fd 10 0 false w) n (find_fd-Frees 10 0 w)
        (find_fd-Takes 10 0 w (omega arith)) room;
}

-- With no descriptor open there is room for ten.
abbrev pub nothing_open : World
nothing_open = record {
  table = λ fd. negsuc 0;
  has_range = false;
  has_directory = true;
  cursor = 0;
}

pub nothing_open-Room : toy-IsOpening.Room 10 nothing_open
unfolding toy-IsOpening free_from
nothing_open-Room = omega arith
