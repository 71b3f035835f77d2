-- ===== src/Base/Lists.antt =====
-- Lists of file descriptors: membership as the slice method `contains` decides it, sortedness, and
-- the measures over the native numbers.
use Prim.Native.Nat.{ℕ, zero, suc}
use mathlib.Core.Path.{◌≡◌, refl, subst}
use mathlib.Core.Logic.{◌⊎◌, inl, inr}
use mathlib.Core.Bool.{Bool, true, false, ◌||◌}
use mathlib.Core.List.{List, [], ◌∷◌}
use mathlib.Core.Option.{Option, none, some}
use native.Mathlib.Omega.{arith}
use close_fds.Base.Tests.{if◌then◌else◌, Bool-cases}
use close_fds.Base.Int.{ℤ, ◌≤ℤ◌, ◌<ℤ◌, leb_ℤ, eqb_ℤ-iff, eqb_ℤ}

module _ {ℓ} {A : Type ℓ} where
  abbrev pub length : List A → ℕ
  length [] = 0
  length (x ∷ xs) = suc (length xs)

  abbrev pub replicate : ℕ → A → List A
  replicate zero a = []
  replicate (suc n) a = a ∷ replicate n a

  abbrev pub take : ℕ → List A → List A
  take zero xs = []
  take (suc n) [] = []
  take (suc n) (x ∷ xs) = x ∷ take n xs

  abbrev pub drop : ℕ → List A → List A
  drop zero xs = xs
  drop (suc n) [] = []
  drop (suc n) (x ∷ xs) = drop n xs

  abbrev pub last? : List A → Option A
  last? [] = none
  last? (x ∷ []) = some x
  last? (x ∷ y ∷ xs) = last? (y ∷ xs)

  -- `slice.iter().position(p)`
  abbrev pub position : (A → Bool) → List A → Option ℕ
  position p [] = none
  position p (x ∷ xs) =
      let rest = position p xs in
      if p x then some 0 else elim rest [ none ↦ none | some i ↦ some (suc i) ]

  -- The list from its first element that passes.
  abbrev pub drop_until : (A → Bool) → List A → List A
  drop_until p [] = []
  drop_until p (x ∷ xs) = if p x then x ∷ xs else drop_until p xs

  -- Where `position` finds no element nothing passes, and otherwise the list goes on from there.
  pub drop-position :
      (p : A → Bool) (xs : List A)
      → ((position p xs ≡ none) × (drop_until p xs ≡ []))
        ⊎ ((i : ℕ) × (y : A) × (ys : List A) × (position p xs ≡ some i)
            × (drop i xs ≡ y ∷ ys)
            × (drop_until p xs ≡ y ∷ ys))
  drop-position p [] = inl (refl, refl)
  drop-position p (x ∷ xs) = elim (Bool-cases (p x)) [
    | inl here ↦ inr (0, x, xs, rw here, refl, rw here)
    | inr there ↦ rw there (elim (drop-position p xs) [
      | inl (e, f) ↦ inl (rw e, f)
      | inr (i, y, ys, e, d, f) ↦ inr (suc i, y, ys, rw e, d, f)
    ])
  ]

  abbrev pub All {κ} : (A → Type κ) → List A → Type κ
  All P [] = Unit
  All P (x ∷ xs) = P x × All P xs

pub All-drop_until {ℓ κ} :
    {A : Type ℓ} (P : A → Type κ) (p : A → Bool) (xs : List A) → All P xs → All P (drop_until p xs)
All-drop_until P p [] h = tt
All-drop_until P p (x ∷ xs) h = elim (Bool-cases (p x)) [
  | inl here ↦ rw here h
  | inr there ↦ rw there (All-drop_until P p xs h.1)
]

abbrev pub contains : List ℤ → ℤ → Bool
contains [] a = false
contains (x ∷ xs) a = eqb_ℤ x a || contains xs a

-- The elements ascend, from `a` on.
abbrev pub Ascends : ℤ → List ℤ → Type 0
Ascends a [] = Unit
Ascends a (x ∷ xs) = (a ≤ℤ x) × Ascends x xs

abbrev pub IsSorted : List ℤ → Type 0
IsSorted [] = Unit
IsSorted (x ∷ xs) = Ascends x xs

pub Ascends-mono : (a b : ℤ) (xs : List ℤ) → a ≤ℤ b → Ascends b xs → Ascends a xs
Ascends-mono a b [] h p = tt
Ascends-mono a b (x ∷ xs) h p = (omega arith, p.1)

-- Nothing below the start of an ascending list is in it.
pub Ascends-contains_below :
    (a : ℤ) (xs : List ℤ) (fd : ℤ) → Ascends a xs → fd <ℤ a → contains xs fd ≡ false
Ascends-contains_below a [] fd p h = refl
Ascends-contains_below a (x ∷ xs) fd p h = ground (arith, Ascends-contains_below x xs fd p.1)

pub All-mono {ℓ κ μ} :
    {A : Type ℓ} (P : A → Type κ) (Q : A → Type μ) (xs : List A)
    → ((x : A) → P x → Q x)
    → All P xs
    → All Q xs
All-mono P Q [] f h = tt
All-mono P Q (x ∷ xs) f h = (f x h.0, All-mono P Q xs f h.1)

-- What holds of all elements holds of each descriptor that is contained.
pub All-contains : (P : ℤ → Type 0) (xs : List ℤ) (fd : ℤ) → All P xs → contains xs fd ≡ true → P fd
All-contains P [] fd h e = cc
All-contains P (x ∷ xs) fd h e = elim (Bool-cases (eqb_ℤ x fd)) [
  | inl same ↦ subst P ((eqb_ℤ-iff x fd).0 same) h.0
  | inr other ↦ All-contains P xs fd h.1 (ground arith)
]

pub All-intro :
    (P : ℤ → Type 0) (xs : List ℤ) → ((fd : ℤ) → contains xs fd ≡ true → P fd) → All P xs
All-intro P [] f = tt
All-intro P (x ∷ xs) f = (f x (ground arith), All-intro P xs (λ fd e. f fd (ground (arith, e))))

pub IsSorted-Ascends : (a : ℤ) (xs : List ℤ) → Ascends a xs → IsSorted xs
IsSorted-Ascends a [] p = tt
IsSorted-Ascends a (x ∷ xs) p = p.1

-- The part of an ascending list that is not below `fd`.
pub drop_until_lem :
    (xs : List ℤ) (fd : ℤ)
    → IsSorted xs
    → Ascends fd (drop_until (λ x. leb_ℤ fd x) xs)
      × ((j : ℤ) → fd ≤ℤ j → contains (drop_until (λ x. leb_ℤ fd x) xs) j ≡ contains xs j)
drop_until_lem [] fd p = (tt, λ j h. refl)
drop_until_lem (x ∷ xs) fd p = elim (Bool-cases (leb_ℤ fd x)) [
  | inl here ↦ rw here ((ground arith, p), λ j h. refl)
  | inr there ↦ rw there (
      let (rest, same) = drop_until_lem xs fd (IsSorted-Ascends x xs p) in
      (rest, λ j h. ground (arith, same j h)))
]
