-- ===== src/CloseFds/Request.antt =====
-- What `close_fds` of src/closefds/close.rs and `set_fds_cloexec` of src/closefds/cloexec.rs ask of their
-- shortcuts, and what calls on the gaps of a sorted list do.
use close_fds.Base.{
  ◌≡◌, refl, inl, inr, Bool, true, ◌||◌, arith, List, [], ◌∷◌, ℤ, pos, ◌≤ℤ◌, ◌<ℤ◌, ◌+ℤ◌, +ℤ_parts,
  leb_ℤ, int_max, as_uint, as_uint-pos, IsInt, Ascends, IsSorted, IsSorted-Ascends, All,
  All-contains, All-intro, contains, Result, Action, Returns, Returns-and_then, Returns-mono,
  Bool-cases,
}
use close_fds.Kernel.{Kernel}
use close_fds.Kernel.Laws.{in_range}
use close_fds.Kernel.Effect.{IsEffect, Attempts, Attempts-or, Attempts-cong}
use close_fds.Process.{Process}
use close_fds.Util.{apply_range, simplify_keep_fds}
use close_fds.Util.Simplify.{IsBelowMax, is_target, simplify_keep_fds-Simplified}
use close_fds.Util.Gaps.{Range, gaps, covered, covered-gaps, Separated, gaps-Separated}
use close_fds.Util.Ranges.{run_ranges, apply_range-gaps}
use close_fds.CloseFds.KeepFds.{KeepFds}

-- What a `KeepFds` promises of its list.
pub record IsKept (keep : KeepFds) : Type 0 where
  pub below_max : All IsBelowMax keep.fds
  pub flag : keep.sorted ≡ true → IsSorted keep.fds
  pub bounded : (fd : ℤ) → contains keep.fds fd ≡ true → fd ≤ℤ keep.max

-- What is known of the arguments of a shortcut.
pub record IsRequest (minfd : ℤ) (keep_fds : List ℤ) (max_keep_fd : ℤ) (fds_sorted : Bool)
    : Type 0 where
  pub nonneg : pos 0 ≤ℤ minfd
  pub within : minfd ≤ℤ int_max
  pub below_max : All IsBelowMax keep_fds
  pub flag : fds_sorted ≡ true → IsSorted keep_fds
  pub bounded : (fd : ℤ) → contains keep_fds fd ≡ true → fd ≤ℤ max_keep_fd

-- Where all that is kept lies below `minfd`, everything from there on is to be closed.
pub from_minfd :
    (minfd : ℤ) (keep_fds : List ℤ) (max_keep_fd : ℤ) (fds_sorted : Bool)
    → IsRequest minfd keep_fds max_keep_fd fds_sorted
    → max_keep_fd <ℤ minfd
    → (j : ℤ) → leb_ℤ minfd j ≡ is_target minfd keep_fds j
from_minfd minfd keep_fds max_keep_fd fds_sorted h lt j = ground (arith, h.bounded j)

from_least : (xs : List ℤ) → IsSorted xs → (a : ℤ) × Ascends a xs
from_least [] up = (pos 0, tt)
from_least (x ∷ xs) up = (x, (omega arith, up))

-- The arguments of a shortcut are those of the caller, simplified.
pub simplified-IsRequest :
    (keep : KeepFds) (minfd : ℤ)
    → IsKept keep
    → pos 0 ≤ℤ minfd
    → minfd ≤ℤ int_max
    → let (keep_fds, minfd') = simplify_keep_fds keep.fds keep.sorted minfd in
      IsRequest minfd' keep_fds keep.max keep.sorted
unfolding simplify_keep_fds
simplified-IsRequest keep minfd h low high = elim (Bool-cases keep.sorted) [
  | inr unsorted ↦ rw unsorted (record {
    nonneg = low;
    within = high;
    below_max = h.below_max;
    flag = λ e. cc;
    bounded = h.bounded;
  })
  | inl sorted ↦
      let (reduced, raised, int, ascends, part) =
        simplify_keep_fds-Simplified keep.fds minfd h.below_max (ground arith) in
      let (a, up) = from_least keep.fds (h.flag sorted) in
      rw sorted (record {
        nonneg = omega arith;
        within = int.1;
        below_max =
            All-intro IsBelowMax _
              (λ fd e. All-contains IsBelowMax keep.fds fd h.below_max (part fd e));
        flag = λ e. IsSorted-Ascends a _ (ascends a up);
        bounded = λ fd e. h.bounded fd (part fd e);
      })
]

module _ (K : Kernel) (eff : ℤ → ℤ) (E : IsEffect eff)
    (func : ℤ → ℤ → Action (Process K) (Result (Unit {0})))
    (each : (low high : ℤ) (p : Process K)
      → Returns
          (func low high p)
          (λ r q. Attempts K eff (in_range (as_uint low) (as_uint high)) p.world r q.world)) where
  run_ranges-Attempts :
      (low : ℤ) (rs : List Range) (p : Process K)
      → pos 0 ≤ℤ low
      → Separated low rs
      → Returns (run_ranges func rs p) (λ r q. Attempts K eff (covered rs) p.world r q.world)
  unfolding run_ranges covered
  run_ranges-Attempts low [] p nn sep = λ j i. refl
  run_ranges-Attempts low ((first, last) ∷ rest) p nn (l0, l1, l2, sep) =
      Returns-and_then _ _ (func first last) (run_ranges func rest) p (each first last p)
        (λ q done.
          Returns-mono _ _ (run_ranges func rest q)
            (run_ranges-Attempts (last +ℤ pos 1) rest q (omega (arith, +ℤ_parts last (pos 1))) sep)
            (λ r t h.
              Attempts-or K eff _ (covered rest) (covered ((first, last) ∷ rest)) p.world q.world
                t.world r E done h same))
        (λ q failed j i. ground (arith, failed j i, same j i))
    where
      same :
          (j : ℤ)
          → IsInt j
          → covered ((first, last) ∷ rest) j
            ≡ (in_range (as_uint first) (as_uint last) j || covered rest j)
      same j i = ground (arith, as_uint-pos first, as_uint-pos last)

  pub apply_range-Attempts :
      (minfd : ℤ) (keep_fds : List ℤ) (p : Process K)
      → pos 0 ≤ℤ minfd
      → minfd ≤ℤ int_max
      → All IsBelowMax keep_fds
      → IsSorted keep_fds
      → Returns
          (apply_range func minfd keep_fds p)
          (λ r q. Attempts K eff (is_target minfd keep_fds) p.world r q.world)
  apply_range-Attempts minfd keep_fds p nn le bs up =
      rw (apply_range-gaps func minfd keep_fds p nn le bs up) (
        Returns-mono _ _ (run_ranges func (gaps minfd keep_fds) p)
          (run_ranges-Attempts minfd (gaps minfd keep_fds) p nn
            (gaps-Separated minfd keep_fds le bs))
          (λ r q h.
            Attempts-cong K eff _ _ p.world q.world r (λ j i. covered-gaps minfd keep_fds j up i.1)
              h))
