-- ===== src/Examples/Setup.antt =====
-- The theorems on what is set up before the loops, at concrete inputs.
use close_fds.Base.{true, ◌≡◌, ◌≢◌, List, [], ◌∷◌, ℤ, pos, arith, some, Returns}
use close_fds.Target.{linux}
use close_fds.Process.{Process, start}
use close_fds.Kernel.Toy.{World, toy, sample}
use close_fds.Sys.{is_wsl_1, is_wsl_1_release}
use close_fds.Sys.Cached.{is_wsl_1-remembers}
use close_fds.CloseFds.Builder
use close_fds.CloseFds.Builder.{keep_fds, keep_fds_sorted, closefrom, cloexecfrom}
use close_fds.CloseFds.Builder.Whole.{keep_fds_sorted-keep_fds}

abbrev fresh : Process toy
fresh = start (sample true true)

is_wsl_1-remembers_example : Returns (is_wsl_1 toy fresh) (λ answer q.
    (q.world ≡ fresh.world)
    × (fresh.is_wsl1 ≢ 0
        → fresh.is_wsl1 ≢ 1
        → answer ≡ is_wsl_1_release (toy.uname_release fresh.world))
    × ((w : World) → is_wsl_1 toy (record q { world = w }) ≡ some (answer, record q { world = w })))
is_wsl_1-remembers_example = is_wsl_1-remembers toy fresh

abbrev keep : List ℤ
keep = pos 4 ∷ pos 6 ∷ []

keep_fds_sorted-keep_fds_example :
    (closefrom linux toy 65547 (pos 3) (keep_fds_sorted keep Builder.new)
      ≡ closefrom linux toy 65547 (pos 3) (keep_fds keep Builder.new))
    × (cloexecfrom linux toy 65547 (pos 3) (keep_fds_sorted keep Builder.new)
        ≡ cloexecfrom linux toy 65547 (pos 3) (keep_fds keep Builder.new))
keep_fds_sorted-keep_fds_example =
    keep_fds_sorted-keep_fds linux toy 65547 (pos 3) keep Builder.new (λ e. cc) (omega arith)
      (omega arith)
