-- ===== src/Tests.antt =====
-- Runs of the model on concrete inputs, among them those of the tests in the sources.
use close_fds.Base.{
  ℕ, Bool, true, false, Option, none, some, List, [], ◌∷◌, ℤ, pos, negsuc, int_max, map, ◌≡◌, refl,
  ◌>>=◌,
}
use close_fds.Target.{Target, linux, freebsd}
use close_fds.Process.{Process, start}
use close_fds.Kernel.Toy.{toy, sample, getfd, open_path, getdents, open_count}
use close_fds.IterFds.Builder as FdIters
use close_fds.IterFds.Builder.{iter_from}
use close_fds.IterFds.Collected.{collected}
use close_fds.CloseFds.Builder.{close_open_fds}

abbrev flags_after : {A : Type 0} → Option (A × Process toy) → Option (List ℤ)
flags_after none = none
flags_after (some (_, p)) =
    some (map (λ (n : ℕ). getfd (pos n) p.world) (0 ∷ 1 ∷ 2 ∷ 3 ∷ 4 ∷ 5 ∷ 6 ∷ 7 ∷ 8 ∷ 9 ∷ []))

run : Target → Bool → Bool → ℤ → List ℤ → Option (List ℤ)
unfolding close_open_fds
run target has_range has_directory minfd keep =
    flags_after (close_open_fds target toy 20 minfd keep (start (sample has_range has_directory)))

-- The table after a run: -1 stands for a closed descriptor.
abbrev opened : ℤ
opened = pos 0

abbrev closed : ℤ
closed = negsuc 0

abbrev three_closed : Option (List ℤ)
three_closed =
    some
      (opened ∷ opened ∷ opened ∷ closed ∷ opened ∷ closed ∷ opened ∷ closed ∷ closed ∷ closed ∷ [])

run_close_range : run linux true true (pos 3) (pos 4 ∷ pos 6 ∷ []) ≡ three_closed
unfolding run open_path getdents
run_close_range = refl

run_directory : run linux false true (pos 3) (pos 4 ∷ pos 6 ∷ []) ≡ three_closed
unfolding run open_path getdents
run_directory = refl

run_closefrom : run freebsd false true (pos 3) (pos 6 ∷ pos 4 ∷ []) ≡ three_closed
unfolding run open_path getdents
run_closefrom = refl

run_with_largest :
    run linux true true (pos 3) (pos 4 ∷ int_max ∷ [])
    ≡ some (
        opened ∷ opened ∷ opened ∷ closed ∷ opened ∷ closed ∷ closed ∷ closed ∷ closed ∷ closed
        ∷ [])
unfolding run open_path getdents
run_with_largest = refl

values : {A : Type 0} → Option (A × Process toy) → Option A
values none = none
values (some (a, _)) = some a

-- The descriptors that an iterator gives, with and without the directory.
collected_run : Target → Bool → Option (List ℤ)
unfolding iter_from collected
collected_run target has_directory = values (
    (iter_from target toy (pos 3) FdIters.new >>= collected target toy 20 20)
      (start (sample false has_directory)))

collected_directory : collected_run linux true ≡ some (pos 3 ∷ pos 4 ∷ pos 5 ∷ pos 6 ∷ pos 8 ∷ [])
unfolding collected_run open_path getdents values
collected_directory = refl

collected_scan : collected_run freebsd false ≡ some (pos 3 ∷ pos 4 ∷ pos 5 ∷ pos 6 ∷ pos 8 ∷ [])
unfolding collected_run open_path getdents values open_count
collected_scan = refl
