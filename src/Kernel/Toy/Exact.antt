-- ===== src/Kernel/Toy/Exact.antt =====
-- The directory of the small kernel names only open descriptors.
use close_fds.Base.{
  true, ℕ, suc, ◌+◌, ◌-◌, ◌≡◌, sym, ◌∙◌, ap, Option, none, some, List, [], ◌∷◌, arith, ℤ, pos,
  pos_part, ◌≤ℤ◌,
}
use mathlib.Core.Path.{subst}
use close_fds.Kernel.Toy.{World, toy, getfd, find_fd, getdents}
use close_fds.Kernel.Toy.Directory.{Finds, find_fd-Finds, digit_name, toy-IsDirectory}
use close_fds.IterFds.DirFd.{parse_int_bytes}
use close_fds.IterFds.DirFd.Decimal.{decimal-digit, parse_int_bytes-decimal}
use close_fds.IterFds.DirFd.Laws.{entry_name}
use close_fds.IterFds.DirFd.Exact.{Backed, IsExact}

-- The descriptor that is read, where it is open.
abbrev IfOpen : World → Option ℤ → Type 0
IfOpen w none = Unit
IfOpen w (some fd) = pos 0 ≤ℤ getfd fd w

abbrev IsBackedRead : ℤ × List ℕ × World → Type 0
IsBackedRead (nbytes, buf, w) =
    (n : ℕ) → nbytes ≡ pos (suc n) → (count : ℕ) × Backed toy buf (suc n) w count 0

getdents-Backed : (d : ℤ) (buf : List ℕ) (w : World) → IsBackedRead (getdents d buf w)
unfolding getdents
getdents-Backed d buf w =
    from (find_fd (10 - w.cursor) w.cursor true w) (find_fd-Finds (10 - w.cursor) w.cursor w)
  where
    from :
        (o : Option ℕ)
        → Finds (10 - w.cursor) w.cursor w o
        → IsBackedRead (elim o as (λ _. ℤ × List ℕ × World) [
          | none ↦ (pos 0, buf, w)
          | some fd ↦ (pos 2, (b'0' + fd) ∷ 0 ∷ [], record w { cursor = suc fd })
        ])
    from none free n e = cc
    from (some fd) (le, lt, opened, free) n e =
        let read : parse_int_bytes (entry_name toy ((b'0' + fd) ∷ 0 ∷ [])) ≡ some (pos fd) =
          ap parse_int_bytes (digit_name fd ∙ sym (decimal-digit fd (omega arith)))
          ∙ parse_int_bytes-decimal fd (omega arith) in
        (1, (λ j named. subst (IfOpen w) (sym read ∙ named) opened, omega (arith, ap pos_part e)))

pub toy-IsExact : IsExact toy 10 toy-IsDirectory
toy-IsExact = record { backed_lem = λ d buf w n lists more. getdents-Backed d buf w n more }
