-- ===== src/Util/Inspect.antt =====
-- What `inspect_keep_fds` of src/util.rs finds out about a list of descriptors.
use close_fds.Base.{
  ◌≡◌, refl, ◌↔◌, ◌⊎◌, inl, Bool, true, false, List, [], ◌∷◌, arith, if◌then◌else◌, ℤ, ◌≤ℤ◌, ltb_ℤ,
  int_min, IsInt, contains, All, Ascends, IsSorted, eqb_ℤ-iff,
}
use close_fds.Util.{inspect_loop, inspect_keep_fds}

abbrev next_max : ℤ → ℤ → ℤ
next_max m x = if ltb_ℤ m x then x else m

abbrev next_sorted : ℤ → ℤ → Bool → ℤ → Bool
next_sorted m l b x = if ltb_ℤ m x then b else if ltb_ℤ x l then false else b

inspect_loop-IsSorted :
    (m l : ℤ) (b : Bool) (xs : List ℤ)
    → l ≤ℤ m
    → ((inspect_loop m l b xs).1 ≡ true) ↔ ((b ≡ true) × Ascends l xs)
unfolding inspect_loop
inspect_loop-IsSorted m l b [] h = (λ e. (e, tt), λ p. p.0)
inspect_loop-IsSorted m l b (x ∷ xs) h =
    let (forth, back) =
      inspect_loop-IsSorted (next_max m x) x (next_sorted m l b x) xs (ground arith) in
    (λ e. ground (arith, forth e), λ p. back (ground arith))

-- The maximum of the list, when it starts from `m`.
abbrev IsMax : ℤ → List ℤ → ℤ → Type 0
IsMax m xs r = (m ≤ℤ r) × All (λ x. x ≤ℤ r) xs × ((r ≡ m) ⊎ (contains xs r ≡ true))

inspect_loop-IsMax : (m l : ℤ) (b : Bool) (xs : List ℤ) → IsMax m xs (inspect_loop m l b xs).0
unfolding inspect_loop
inspect_loop-IsMax m l b [] = (omega arith, tt, inl refl)
inspect_loop-IsMax m l b (x ∷ xs) =
    let rest = inspect_loop (next_max m x) x (next_sorted m l b x) xs in
    ground (arith, inspect_loop-IsMax (next_max m x) x (next_sorted m l b x) xs, eqb_ℤ-iff x rest.0)

-- For a list of `c_int`s, the flag is set exactly when the list ascends.
pub inspect_keep_fds-IsSorted :
    (keep_fds : List ℤ)
    → All IsInt keep_fds
    → ((inspect_keep_fds keep_fds).1 ≡ true) ↔ IsSorted keep_fds
unfolding inspect_keep_fds
inspect_keep_fds-IsSorted [] h = (λ e. tt, λ p. refl)
inspect_keep_fds-IsSorted (x ∷ xs) h =
    let (forth, back) = inspect_loop-IsSorted int_min int_min true (x ∷ xs) (omega arith) in
    (λ e. (forth e).1.1, λ p. back (refl, (h.0.0, p)))

-- For a list of `c_int`s, the number is an upper bound of the list, and one of its elements unless the list is empty.
pub inspect_keep_fds-max :
    (keep_fds : List ℤ)
    → All IsInt keep_fds
    → let max = (inspect_keep_fds keep_fds).0 in
      All (λ fd. fd ≤ℤ max) keep_fds
      × (((keep_fds ≡ []) × (max ≡ int_min)) ⊎ (contains keep_fds max ≡ true))
unfolding inspect_keep_fds
inspect_keep_fds-max [] h = ground arith
inspect_keep_fds-max (x ∷ xs) h =
    ground (arith, inspect_loop-IsMax int_min int_min true (x ∷ xs), eqb_ℤ-iff x int_min)
