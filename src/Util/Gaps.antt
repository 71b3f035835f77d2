-- ===== src/Util/Gaps.antt =====
-- The gaps between the descriptors of a sorted list: the reference for `apply_range` of src/util.rs.
use close_fds.Base.{
  ◌≡◌, refl, ◌∙◌, inl, inr, Bool, false, ◌&&◌, ◌||◌, List, [], ◌∷◌, arith, if◌then◌else◌, ℤ, pos,
  pos_part, neg_part, ◌+ℤ◌, ◌-ℤ◌, ◌≤ℤ◌, ◌<ℤ◌, leb_ℤ, ltb_ℤ, int_max, All, IsSorted, Bool-cases,
  -ℤ_parts, +ℤ_parts, drop_until, ℤ-trichotomy, IsSorted-Ascends, Ascends-contains_below,
}
use mathlib.Core.Path.{ap}
use close_fds.Util.Simplify.{IsBelowMax, is_target}

abbrev pub Range : Type 0
Range = ℤ × ℤ

-- The gaps in a sorted list from `low` on, with no wrap-around: the reference for `apply_range`.
unfoldable pub gaps : ℤ → List ℤ → List Range
gaps low [] = (low, int_max) ∷ []
gaps low (x ∷ xs) =
    let skip = gaps low xs in
    let after = gaps (x +ℤ pos 1) xs in
    if ltb_ℤ x low then skip else if ltb_ℤ low x then (low, x -ℤ pos 1) ∷ after else after

module _ (low x : ℤ) (xs : List ℤ) where
  pub gaps-skip : x <ℤ low → gaps low (x ∷ xs) ≡ gaps low xs
  unfolding gaps
  gaps-skip h = ground arith

  pub gaps-cut : low <ℤ x → gaps low (x ∷ xs) ≡ (low, x -ℤ pos 1) ∷ gaps (x +ℤ pos 1) xs
  unfolding gaps
  gaps-cut h = ground arith

  pub gaps-at : low ≡ x → gaps low (x ∷ xs) ≡ gaps (x +ℤ pos 1) xs
  unfolding gaps
  gaps-at h = ground arith

pub gaps-nil : (low : ℤ) → gaps low [] ≡ (low, int_max) ∷ []
unfolding gaps
gaps-nil low = refl

-- The elements below `low` make no gap.
pub gaps-drop_until :
    (low : ℤ) (xs : List ℤ) → gaps low xs ≡ gaps low (drop_until (λ fd. leb_ℤ low fd) xs)
gaps-drop_until low [] = refl
gaps-drop_until low (x ∷ xs) = elim (Bool-cases (leb_ℤ low x)) [
  | inl here ↦ rw here refl
  | inr there ↦ rw there (gaps-skip low x xs (ground arith) ∙ gaps-drop_until low xs)
]

unfoldable pub covered : List Range → ℤ → Bool
covered [] fd = false
covered ((low, high) ∷ rest) fd = (leb_ℤ low fd && leb_ℤ fd high) || covered rest fd

-- The gaps hold exactly the descriptors to act on.
pub covered-gaps :
    (low : ℤ) (keep_fds : List ℤ) (fd : ℤ)
    → IsSorted keep_fds
    → fd ≤ℤ int_max
    → covered (gaps low keep_fds) fd ≡ is_target low keep_fds fd
unfolding covered
covered-gaps low [] fd up le = rw gaps-nil (ground arith)
covered-gaps low (x ∷ xs) fd up le = elim (ℤ-trichotomy low x) [
  | inl less ↦ rw (gaps-cut low x xs less) (
      ground (
        arith,
        covered-gaps (x +ℤ pos 1) xs fd (IsSorted-Ascends x xs up) le,
        Ascends-contains_below x xs fd up,
        +ℤ_parts x (pos 1),
        -ℤ_parts x (pos 1),
      ))
  | inr (inl equal) ↦ rw (gaps-at low x xs equal) (
      covered-gaps (x +ℤ pos 1) xs fd (IsSorted-Ascends x xs up) le
      ∙ ground (arith, +ℤ_parts x (pos 1)))
  | inr (inr greater) ↦
      rw (gaps-skip low x xs greater)
        (covered-gaps low xs fd (IsSorted-Ascends x xs up) le ∙ ground arith)
]

-- Each range begins at or above `low`, is not inverted, and ends below where the next one begins.
abbrev pub Separated : ℤ → List Range → Type 0
Separated low [] = Unit
Separated low ((first, last) ∷ rest) =
    (low ≤ℤ first) × (first ≤ℤ last) × (last ≤ℤ int_max) × Separated (last +ℤ pos 1) rest

Separated-mono : (a b : ℤ) (rs : List Range) → a ≤ℤ b → Separated b rs → Separated a rs
Separated-mono a b [] h p = tt
Separated-mono a b (r ∷ rs) h p = (omega arith, p.1, p.2, p.3)

pub gaps-Separated :
    (low : ℤ) (keep_fds : List ℤ)
    → low ≤ℤ int_max
    → All IsBelowMax keep_fds
    → Separated low (gaps low keep_fds)
gaps-Separated low [] le bs = rw gaps-nil (omega arith, le, omega arith, tt)
gaps-Separated low (x ∷ xs) le bs = elim (ℤ-trichotomy low x) [
  | inl less ↦ rw (gaps-cut low x xs less) (
    omega arith,
    omega (arith, -ℤ_parts x (pos 1)),
    omega (arith, bs.0, -ℤ_parts x (pos 1)),
    Separated-mono (x -ℤ pos 1 +ℤ pos 1) (x +ℤ pos 1) _
        (omega (arith, +ℤ_parts (x -ℤ pos 1) (pos 1), -ℤ_parts x (pos 1), +ℤ_parts x (pos 1)))
        (gaps-Separated (x +ℤ pos 1) xs (omega (arith, bs.0, +ℤ_parts x (pos 1))) bs.1),
  )
  | inr (inl equal) ↦ rw (gaps-at low x xs equal) (
      Separated-mono low (x +ℤ pos 1) _
        (omega (arith, +ℤ_parts x (pos 1), ap pos_part equal, ap neg_part equal))
        (gaps-Separated (x +ℤ pos 1) xs (omega (arith, bs.0, +ℤ_parts x (pos 1))) bs.1))
  | inr (inr greater) ↦ rw (gaps-skip low x xs greater) (gaps-Separated low xs le bs.1)
]
