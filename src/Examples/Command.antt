-- ===== src/Examples/Command.antt =====
-- The theorems on the example program, over the small kernel.
use close_fds.Base.{
  ℕ, eqb_ℤ-iff, ◌∙◌, ap, if◌then◌else◌, ltb_ℤ, ◌≡◌, refl, inl, inr, Bool-cases, true, false, Option,
  none, some, arith, ℤ, pos, negsuc, ◌≤ℤ◌, ◌<ℤ◌, leb_ℤ, eqb_ℤ, Returns,
}
use mathlib.Core.Path.{subst}
use close_fds.Target.{linux}
use close_fds.Util.Simplify.{IsBelowMax}
use close_fds.Process.{start}
use close_fds.Kernel.Toy.{World, toy, getfd, find_fd}
use close_fds.Kernel.Toy.Bounded.{toy-IsBounded}
use close_fds.Kernel.Toy.Lawful.{toy-IsTable, toy-IsFlagTable}
use close_fds.Kernel.Toy.Directory.{Frees, find_fd-Frees, toy-IsDirectory, toy-Opens}
use close_fds.CommandClose.{Calls, unset_cloexec, run_child}
use close_fds.CommandClose.Inherited.{without_cloexec, IsCalls, unset_cloexec-Unset}
use close_fds.CommandClose.Child.{InheritsOnly, run_child-InheritsOnly}

abbrev with_file : World → ℕ → World
with_file w fd = record w { table = λ j. if eqb_ℤ j (pos fd) then pos 1 else w.table j }

abbrev root_at : World → Option ℕ → Option (ℤ × World)
root_at w none = none
root_at w (some fd) = some (pos fd, with_file w fd)

-- The first descriptor that is closed is opened with `FD_CLOEXEC`.
unfoldable open_root : World → Option (ℤ × World)
open_root w = root_at w (find_fd 10 0 false w)

abbrev calls : Calls toy
calls = record {
  open_root = open_root;
  setfd_result = λ fd flags w. if leb_ℤ (pos 0) (toy.getfd fd w) then pos 0 else negsuc 0;
}

-- What is known of the answer.
abbrev IsOpened : World → Option (ℤ × World) → Type 0
IsOpened w none = Unit
IsOpened w (some (fd, v)) =
    (IsBelowMax fd × (pos 0 ≤ℤ getfd fd v)) × ((j : ℤ) → pos 0 ≤ℤ getfd j w → getfd j v ≡ getfd j w)

root_at-IsOpened : (w : World) (o : Option ℕ) → Frees 10 0 w o → IsOpened w (root_at w o)
root_at-IsOpened w none free = tt
root_at-IsOpened w (some fd) (lt, free) = (
  (((omega arith, omega arith), omega arith), ground arith),
  λ j live. elim (Bool-cases (eqb_ℤ j (pos fd))) [
    | inl same ↦
        let gone : getfd j w ≡ negsuc 0 =
          ap (λ i. getfd i w) ((eqb_ℤ-iff j (pos fd)).0 same) ∙ free in
        let open_fd : pos 0 ≤ℤ negsuc 0 = subst (λ n. pos 0 ≤ℤ n) gone live in absurd (omega arith)
    | inr other ↦ rw other refl
  ],
)

open_root-IsOpened : (fd : ℤ) (w v : World) → open_root w ≡ some (fd, v) → IsOpened w (some (fd, v))
unfolding open_root
open_root-IsOpened fd w v e =
    subst (IsOpened w) e (root_at-IsOpened w (find_fd 10 0 false w) (find_fd-Frees 10 0 w))

calls-IsCalls : IsCalls toy calls
calls-IsCalls = record {
  opened_lem = λ fd w v e. (open_root-IsOpened fd w v e).0;
  others_lem = λ fd j w v e live. (open_root-IsOpened fd w v e).1 j live;
  result_lem = λ fd flags w live. ground (arith);
  setfd_lem = λ fd flags j w live sub. ground (arith);
}

-- Only the descriptors 0 to 2 are open.
abbrev few_open : World
few_open = record {
  table = λ fd. if ltb_ℤ fd (pos 3) then pos 0 else negsuc 0;
  has_range = false;
  has_directory = true;
  cursor = 0;
}

abbrev three_files : (w1 : World) × (w2 : World) × World
three_files = let w1 = with_file few_open 3 in let w2 = with_file w1 4 in (w1, w2, with_file w2 5)

first : open_root few_open ≡ some (pos 3, three_files.0)
unfolding open_root find_fd
first = refl

second : open_root three_files.0 ≡ some (pos 4, three_files.1)
unfolding open_root find_fd
second = refl

third : open_root three_files.1 ≡ some (pos 5, three_files.2)
unfolding open_root find_fd
third = refl

run_child-InheritsOnly_example :
    Returns
      (run_child linux toy 65547 calls (start few_open))
      (λ r q. (r ≡ (pos 3, pos 4, pos 5)) × InheritsOnly toy (pos 3) (pos 5) (pos 1023) q.world)
run_child-InheritsOnly_example =
    run_child-InheritsOnly linux toy toy-IsTable (pos 1023) 65535 (toy-IsBounded linux) 10
      toy-IsDirectory (toy-Opens linux) 65546 (omega arith) toy-IsFlagTable calls calls-IsCalls
      (pos 3) (pos 4) (pos 5) three_files.0 three_files.1 three_files.2 (start few_open) first
      second third

unset_cloexec-Unset_example :
    (pos 0 ≤ℤ toy.getfd (pos 5) three_files.2
      → Returns (unset_cloexec toy calls (pos 5) (start three_files.2)) (λ _ q.
        (j : ℤ)
        → toy.getfd j q.world ≡ (
            if eqb_ℤ (pos 5) j
            then without_cloexec (toy.getfd j three_files.2)
            else toy.getfd j three_files.2)))
    × (toy.getfd (pos 5) three_files.2 <ℤ pos 0
        → unset_cloexec toy calls (pos 5) (start three_files.2) ≡ none)
unset_cloexec-Unset_example =
    unset_cloexec-Unset toy calls calls-IsCalls (pos 5) (start three_files.2) (omega arith)
