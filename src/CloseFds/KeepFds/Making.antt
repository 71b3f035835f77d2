-- ===== src/CloseFds/KeepFds/Making.antt =====
-- What the two ways to make a `KeepFds` of src/closefds/mod.rs know about the list.
use close_fds.Base.{
  ◌≡◌, ◌≢◌, refl, sym, inl, inr, true, List, [], ◌∷◌, arith, ℤ, negsuc, ◌≤ℤ◌, IsInt, contains, All,
  All-contains, Ascends, IsSorted, last?, some, none, eq_of_parts,
}
use close_fds.Util.{inspect_keep_fds}
use close_fds.Util.Inspect.{inspect_keep_fds-IsSorted, inspect_keep_fds-max}
use close_fds.CloseFds.KeepFds
use close_fds.CloseFds.KeepFds.{KeepFds}

-- The last element of an ascending list is in it, and bounds it.
last-max :
    (x : ℤ) (xs : List ℤ)
    → Ascends x xs
    → (y : ℤ) × (last? (x ∷ xs) ≡ some y)
      × (contains (x ∷ xs) y ≡ true)
      × All (λ fd. fd ≤ℤ y) (x ∷ xs)
last-max x [] p = (x, refl, ground arith, omega arith)
last-max x (z ∷ xs) p =
    let (y, e, c, h) = last-max z xs p.1 in (y, e, ground (arith, c), (omega (arith, h.0, p.0), h))

-- Two elements of a list that bound it are the same.
max_unique :
    (fds : List ℤ) (a b : ℤ)
    → contains fds a ≡ true
    → All (λ fd. fd ≤ℤ a) fds
    → contains fds b ≡ true
    → All (λ fd. fd ≤ℤ b) fds
    → a ≡ b
max_unique fds a b ca ha cb hb = eq_of_parts a b (
    omega
      (arith, All-contains (λ fd. fd ≤ℤ b) fds a hb ca, All-contains (λ fd. fd ≤ℤ a) fds b ha cb))

-- On a sorted list of `c_int`s that is not empty `new_sorted` knows, without a look at it, what `new` finds out.
pub new_sorted-new :
    (fds : List ℤ)
    → fds ≢ []
    → All IsInt fds
    → IsSorted fds
    → KeepFds.new_sorted fds ≡ KeepFds.new fds
unfolding KeepFds.new_sorted KeepFds.new
new_sorted-new [] some_fd i up = absurd (some_fd refl)
new_sorted-new (x ∷ xs) some_fd i up =
    λ k. record { fds = x ∷ xs; max = top k; sorted = sym flag k }
  where
    flag : (inspect_keep_fds (x ∷ xs)).1 ≡ true
    flag = (inspect_keep_fds-IsSorted (x ∷ xs) i).1 up

    attained : contains (x ∷ xs) (inspect_keep_fds (x ∷ xs)).0 ≡ true
    attained = elim (inspect_keep_fds-max (x ∷ xs) i).1 [
      | inl (e, _) ↦ absurd (some_fd e)
      | inr c ↦ c
    ]

    top : elim (last? (x ∷ xs)) [ none ↦ negsuc 0 | some fd ↦ fd ] ≡ (inspect_keep_fds (x ∷ xs)).0
    top =
        let (y, e, c, h) = last-max x xs up in
        rw e (
          max_unique (x ∷ xs) y (inspect_keep_fds (x ∷ xs)).0 c h attained
            (inspect_keep_fds-max (x ∷ xs) i).0)

-- What `close_fds` relies on, for a list of `c_int`s: `new` keeps the list, `max` bounds the list, and the flag is set only for a sorted list.
pub new-bounds :
    (fds : List ℤ)
    → All IsInt fds
    → let keep = KeepFds.new fds in
      (keep.fds ≡ fds)
      × (keep.sorted ≡ true → IsSorted fds)
      × ((fd : ℤ) → contains fds fd ≡ true → fd ≤ℤ keep.max)
unfolding KeepFds.new
new-bounds fds i = (
  refl,
  (inspect_keep_fds-IsSorted fds i).0,
  λ fd c. All-contains (λ a. a ≤ℤ (inspect_keep_fds fds).0) fds fd (inspect_keep_fds-max fds i).0 c,
)
