-- ===== src/Util/Keep.antt =====
-- `check_should_keep` of src/util.rs, asked about ascending descriptors, answers as `contains` on the
-- whole list does, though it goes on with a shorter slice each time.
use close_fds.Base.{
  ◌≡◌, refl, ◌∙◌, Bool, true, false, List, [], ◌∷◌, arith, ℤ, ◌≤ℤ◌, leb_ℤ, contains, Ascends,
  IsSorted, Ascends-contains_below, inl, inr, map, drop-position, drop_until_lem, drop_until,
  IsSorted-Ascends,
}
use mathlib.Core.Path.{sym, ap, ap₂}
use close_fds.Util.{first_is, skip_below, check_should_keep}

-- What a call leaves: the answer is right, and the slice answers alike for all later descriptors.
abbrev pub Checked : List ℤ → ℤ → Bool → Bool × List ℤ → Type 0
Checked keep_fds fd fds_sorted (answer, keep') =
    (answer ≡ contains keep_fds fd)
    × (fds_sorted ≡ true → IsSorted keep')
    × ((j : ℤ) → fd ≤ℤ j → contains keep' j ≡ contains keep_fds j)

first_is-contains : (fd : ℤ) (xs : List ℤ) → Ascends fd xs → first_is xs fd ≡ contains xs fd
unfolding first_is
first_is-contains fd [] p = refl
first_is-contains fd (x ∷ xs) p = ground (arith, Ascends-contains_below x xs fd p.1)

-- The slice is cut where it reaches `fd`, or all of it is below `fd`.
skip_below-Checked :
    (keep_fds : List ℤ) (fd : ℤ)
    → IsSorted keep_fds
    → Checked keep_fds fd true (first_is (skip_below keep_fds fd) fd, skip_below keep_fds fd)
unfolding skip_below first_is
skip_below-Checked [] fd p = (refl, λ _. tt, λ j h. refl)
skip_below-Checked (x ∷ xs) fd p =
    let (up, same) = drop_until_lem (x ∷ xs) fd p in
    let rest : List ℤ = drop_until (λ y. leb_ℤ fd y) (x ∷ xs) in
    elim (drop-position (λ y. leb_ℤ fd y) (x ∷ xs)) [
      | inl (e, f) ↦
          let gone : contains (x ∷ xs) fd ≡ false =
            sym (same fd (omega arith)) ∙ ap (λ l. contains l fd) f in
          rw (e, skip_below) (ground (arith, gone), λ _. p, λ j h. refl)
      | inr (i, y, ys, e, d, f) ↦
          rw (e, skip_below)
            (rw (d ∙ sym f) (
              first_is-contains fd rest up ∙ same fd (omega arith),
              λ _. IsSorted-Ascends fd rest up,
              same,
            ))
    ]

-- For a sorted slice as for an unsorted one.
pub check_should_keep-Checked :
    (keep_fds : List ℤ) (fd : ℤ) (fds_sorted : Bool)
    → (fds_sorted ≡ true → IsSorted keep_fds)
    → Checked keep_fds fd fds_sorted (check_should_keep keep_fds fd fds_sorted)
unfolding check_should_keep
check_should_keep-Checked keep_fds fd true p = skip_below-Checked keep_fds fd (p refl)
check_should_keep-Checked keep_fds fd false p = (refl, λ e. cc, λ j h. refl)

-- The calls for a list of descriptors, each with the slice that the call before left.
pub answers : List ℤ → Bool → List ℤ → List Bool
answers keep_fds fds_sorted [] = []
answers keep_fds fds_sorted (fd ∷ fds) =
    (check_should_keep keep_fds fd fds_sorted).0
    ∷ answers (check_should_keep keep_fds fd fds_sorted).1 fds_sorted fds

answers-map :
    (keep_fds : List ℤ) (fds_sorted : Bool) (fds k : List ℤ) (a : ℤ)
    → (fds_sorted ≡ true → IsSorted k)
    → ((j : ℤ) → a ≤ℤ j → contains k j ≡ contains keep_fds j)
    → Ascends a fds
    → answers k fds_sorted fds ≡ map (contains keep_fds) fds
unfolding answers
answers-map keep_fds fds_sorted [] k a sorted same up = refl
answers-map keep_fds fds_sorted (fd ∷ fds) k a sorted same up =
    let (right, sorted', same') = check_should_keep-Checked k fd fds_sorted sorted in
    ap₂ ◌∷◌ (right ∙ same fd up.0) (
      answers-map keep_fds fds_sorted fds (check_should_keep k fd fds_sorted).1 fd sorted'
        (λ j h. same' j h ∙ same j (omega arith)) up.1)

-- The optimised lookup is the plain one: over ascending descriptors, and for a list that is sorted if the
-- flag says so, the answers of `check_should_keep` are those of `contains` on the whole list.
pub answers-contains :
    (keep_fds : List ℤ) (fds_sorted : Bool) (fds : List ℤ)
    → (fds_sorted ≡ true → IsSorted keep_fds)
    → IsSorted fds
    → answers keep_fds fds_sorted fds ≡ map (contains keep_fds) fds
unfolding answers
answers-contains keep_fds fds_sorted [] sorted up = refl
answers-contains keep_fds fds_sorted (fd ∷ fds) sorted up =
    answers-map keep_fds fds_sorted (fd ∷ fds) keep_fds fd sorted (λ j h. refl) (omega arith, up)
