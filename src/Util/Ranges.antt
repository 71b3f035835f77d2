-- ===== src/Util/Ranges.antt =====
-- `apply_range` of src/util.rs calls its function on the gaps between the descriptors to keep.
use close_fds.Base.{
  ◌+◌, ◌≡◌, ◌∙◌, inl, inr, true, false, List, [], ◌∷◌, arith, if◌then◌else◌, ℤ, pos, pos_part,
  neg_part, ◌+ℤ◌, ◌-ℤ◌, ◌≤ℤ◌, ◌<ℤ◌, ◌≤◌, ◌<◌, leb_ℤ, ltb_ℤ, int_max, All, Ascends, IsSorted,
  wrap_int, Result, ok, Action, pure, and_then, wrap_int-id, -ℤ_parts, +ℤ_parts, eq_of_parts,
  drop-position, ℤ-trichotomy, drop_until_lem, All-drop_until,
}
use mathlib.Core.Path.{sym, subst, ap}
use close_fds.Util.{apply_gaps, apply_from, apply_range}
use close_fds.Util.Simplify.{IsBelowMax}
use close_fds.Util.Gaps.{Range, gaps, gaps-skip, gaps-cut, gaps-at, gaps-nil, gaps-drop_until}

abbrev pub IsFd : ℤ → Type 0
IsFd fd = (pos 0 ≤ℤ fd) × (fd <ℤ int_max)

pub suc_fd : (fd : ℤ) → IsFd fd → wrap_int (fd +ℤ pos 1) ≡ fd +ℤ pos 1
suc_fd fd h = wrap_int-id _ (omega (arith, +ℤ_parts fd (pos 1)))

pred_fd : (fd : ℤ) → IsFd fd → wrap_int (fd -ℤ pos 1) ≡ fd -ℤ pos 1
pred_fd fd h = wrap_int-id _ (omega (arith, -ℤ_parts fd (pos 1)))

sub_fd : (a b : ℤ) → IsFd a → IsFd b → wrap_int (a -ℤ b) ≡ a -ℤ b
sub_fd a b h k = wrap_int-id _ (omega (arith, -ℤ_parts a b))

ltb_ℤ-true : (a b : ℤ) → a <ℤ b → ltb_ℤ a b ≡ true
ltb_ℤ-true a b h = ground arith

ltb_ℤ-false : (a b : ℤ) → b ≤ℤ a → ltb_ℤ a b ≡ false
ltb_ℤ-false a b h = ground arith

wide :
    (low x : ℤ)
    → pos_part low + neg_part x + 1 < pos_part x + neg_part low
    → leb_ℤ (pos 2) (x -ℤ low) ≡ true
wide low x h = ground (arith, -ℤ_parts x low)

narrow :
    (low x : ℤ)
    → pos_part x + neg_part low ≤ pos_part low + neg_part x + 1
    → leb_ℤ (pos 2) (x -ℤ low) ≡ false
narrow low x h = ground (arith, -ℤ_parts x low)

Ascends-IsFd : (a : ℤ) (xs : List ℤ) → pos 0 ≤ℤ a → Ascends a xs → All IsBelowMax xs → All IsFd xs
Ascends-IsFd a [] nn p h = tt
Ascends-IsFd a (x ∷ xs) nn p h =
    ((omega (arith, p.0), h.0.1), Ascends-IsFd x xs (omega (arith, p.0)) p.1 h.1)

and_then-ok {ℓ} :
    {S : Type ℓ} (m : Action S (Result (Unit {0}))) (s : S) → and_then m (pure (ok tt)) s ≡ m s
and_then-ok m s = ground arith

module _ {S : Type 0} (func : ℤ → ℤ → Action S (Result (Unit {0}))) where
  -- The function on each range in turn, until it fails.
  unfoldable pub run_ranges : List Range → Action S (Result (Unit {0}))
  run_ranges [] = pure (ok tt)
  run_ranges ((low, high) ∷ rest) = and_then (func low high) (run_ranges rest)

  and_then-cong :
      (m : Action S (Result (Unit {0}))) (k l : Action S (Result (Unit {0}))) (s : S)
      → ((t : S) → k t ≡ l t)
      → and_then m k s ≡ and_then m l s
  and_then-cong m k l s h = λ i. and_then m (λ t. h t i) s

  apply_gaps-eq :
      (low : ℤ) (xs : List ℤ)
      → IsFd low
      → All IsFd xs
      → Ascends low xs
      → (s : S) → apply_gaps func low xs s ≡ run_ranges (gaps (low +ℤ pos 1) xs) s
  unfolding apply_gaps run_ranges
  apply_gaps-eq low [] b bs up s =
      rw (suc_fd low b, gaps-nil) (sym (and_then-ok (func (low +ℤ pos 1) int_max) s))
  apply_gaps-eq low (x ∷ xs) b bs up s =
      rw (suc_fd low b, pred_fd x bs.0, sub_fd x low bs.0 b)
        (arms (apply_gaps-eq x xs bs.0 bs.1 up.1))
    where
      skipped :
          low ≡ x → run_ranges (gaps (low +ℤ pos 1) xs) s ≡ run_ranges (gaps (x +ℤ pos 1) xs) s
      skipped e = λ i. run_ranges (gaps (e i +ℤ pos 1) xs) s

      arms :
          ((t : S) → apply_gaps func x xs t ≡ run_ranges (gaps (x +ℤ pos 1) xs) t)
          → and_then
              (if leb_ℤ (pos 2) (x -ℤ low) then func (low +ℤ pos 1) (x -ℤ pos 1) else pure (ok tt))
              (apply_gaps func x xs)
              s
            ≡ run_ranges (gaps (low +ℤ pos 1) (x ∷ xs)) s
      arms ih = elim (ℤ-trichotomy (low +ℤ pos 1) x) [
        | inl less ↦
            rw (wide low x (omega (arith, +ℤ_parts low (pos 1))), gaps-cut (low +ℤ pos 1) x xs less)
              (and_then-cong (func (low +ℤ pos 1) (x -ℤ pos 1)) (apply_gaps func x xs)
                (run_ranges (gaps (x +ℤ pos 1) xs)) s ih)
        | inr (inl equal) ↦
            rw
              (narrow low x
                (omega (arith, +ℤ_parts low (pos 1), ap pos_part equal, ap neg_part equal)))
              (ih s ∙ rw (gaps-at (low +ℤ pos 1) x xs equal))
        | inr (inr greater) ↦
            rw
              (
                narrow low x (omega (arith, +ℤ_parts low (pos 1))),
                gaps-skip (low +ℤ pos 1) x xs greater,
              )
              (ih s ∙ sym (skipped (eq_of_parts low x (omega (arith, +ℤ_parts low (pos 1), up.0)))))
      ]

  apply_from-eq :
      (minfd first : ℤ) (rest : List ℤ) (s : S)
      → IsFd minfd
      → All IsFd (first ∷ rest)
      → Ascends minfd (first ∷ rest)
      → apply_from func minfd (first ∷ rest) s ≡ run_ranges (gaps minfd (first ∷ rest)) s
  unfolding apply_from run_ranges
  apply_from-eq minfd first rest s b bs up =
      let ih = apply_gaps-eq first rest bs.0 bs.1 up.1 in
      rw (pred_fd first bs.0) (elim (ℤ-trichotomy minfd first) [
        | inl less ↦
            rw (ltb_ℤ-true minfd first less, gaps-cut minfd first rest less)
              (and_then-cong (func minfd (first -ℤ pos 1)) (apply_gaps func first rest)
                (run_ranges (gaps (first +ℤ pos 1) rest)) s ih)
        | inr (inl equal) ↦
            rw (ltb_ℤ-false minfd first (ground arith), gaps-at minfd first rest equal) (ih s)
        | inr (inr greater) ↦ absurd (omega arith)
      ])

  -- For a `minfd` that is a nonnegative `c_int`, and a sorted list below the largest `c_int`, the calls are
  -- made for the gaps, in order, until one of them fails.
  pub apply_range-gaps :
      (minfd : ℤ) (keep_fds : List ℤ) (s : S)
      → pos 0 ≤ℤ minfd
      → minfd ≤ℤ int_max
      → All IsBelowMax keep_fds
      → IsSorted keep_fds
      → apply_range func minfd keep_fds s ≡ run_ranges (gaps minfd keep_fds) s
  unfolding apply_range run_ranges
  apply_range-gaps minfd keep_fds s nn le bs up =
      elim (drop-position (λ fd. leb_ℤ minfd fd) keep_fds) [
        | inl (e, f) ↦
            rw (e, apply_range, gaps-drop_until minfd keep_fds, f, gaps-nil)
              (sym (and_then-ok (func minfd int_max) s))
        | inr (i, y, ys, e, d, f) ↦
            let p : Ascends minfd (y ∷ ys) =
              subst (Ascends minfd) f (drop_until_lem keep_fds minfd up).0 in
            let q : All IsBelowMax (y ∷ ys) =
              subst (All IsBelowMax) f (All-drop_until IsBelowMax _ keep_fds bs) in
            rw (e, apply_range, gaps-drop_until minfd keep_fds, d, f)
              (apply_from-eq minfd y ys s (nn, omega (arith, q.0, p.0))
                (Ascends-IsFd minfd (y ∷ ys) nn p q) p)
      ]
