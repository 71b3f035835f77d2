-- ===== src/Util/Overflow.antt =====
-- `apply_range` of src/util.rs where the list to keep ends in the largest `c_int`: the number after it
-- wraps around, and the last call is for an inverted range.
use close_fds.Base.{
  ◌≡◌, ◌≢◌, refl, sym, ap, ◌∙◌, true, true≢false, List, [], ◌∷◌, arith, if◌then◌else◌, ℤ, pos, ◌+ℤ◌,
  ◌-ℤ◌, ◌≤ℤ◌, leb_ℤ, ltb_ℤ, int_min, int_max, IsInt, contains, All, Ascends, IsSorted, wrap_int,
  inl, inr, Result, ok, err, Action, pure, and_then, bind, Option, none, some, drop-position,
  drop_until_lem, All-drop_until, eq_of_parts,
}
use mathlib.Core.Path.{subst}
use close_fds.Util.{apply_gaps, apply_from, apply_range}

module _ {S : Type 0} where
  -- The outcome is no success.
  abbrev pub Fails : Option (Result (Unit {0}) × S) → Type 0
  Fails r = (t : S) → r ≢ some (ok tt, t)

  and_then-Fails :
      (m k : Action S (Result (Unit {0}))) (s : S)
      → ((t : S) → Fails (k t))
      → Fails (and_then m k s)
  and_then-Fails m k s h = go (m s)
    where
      go :
          (r : Option (Result (Unit {0}) × S))
          → Fails (bind r (λ o. elim o [ ok _ ↦ k | err ↦ pure err ]))
      go none t e = cc
      go (some (ok u, s')) t e = h s' t e
      go (some (err, s')) t e = cc

suc_int_max : wrap_int (int_max +ℤ pos 1) ≡ int_min
unfolding wrap_int ◌+ℤ◌
suc_int_max = refl

module _ {S : Type 0} (func : ℤ → ℤ → Action S (Result (Unit {0})))
    (inverted : (s : S) → Fails (func int_min int_max s)) where
  apply_gaps-Fails :
      (low : ℤ) (xs : List ℤ) (s : S)
      → All IsInt (low ∷ xs)
      → Ascends low xs
      → contains (low ∷ xs) int_max ≡ true
      → Fails (apply_gaps func low xs s)
  unfolding apply_gaps
  apply_gaps-Fails low [] s i up e =
      let top : low ≡ int_max = eq_of_parts low int_max (ground arith) in
      rw (top, suc_int_max) (inverted s)
  apply_gaps-Fails low (x ∷ xs) s i up e =
      and_then-Fails
        (if leb_ℤ (pos 2) (wrap_int (x -ℤ low))
          then func (wrap_int (low +ℤ pos 1)) (wrap_int (x -ℤ pos 1))
          else pure (ok tt))
        (apply_gaps func x xs) s
        (λ t. apply_gaps-Fails x xs t i.1 up.1 (ground (arith, i.1.0, up.0)))

  -- If the list, of `c_int`s, ascends and contains the largest `c_int`, `minfd` is not above it, and the
  -- function refuses the range from
  -- the smallest to the largest, then `apply_range` does not succeed.
  pub apply_range-Fails :
      (minfd : ℤ) (keep_fds : List ℤ) (s : S)
      → minfd ≤ℤ int_max
      → All IsInt keep_fds
      → IsSorted keep_fds
      → contains keep_fds int_max ≡ true
      → Fails (apply_range func minfd keep_fds s)
  unfolding apply_range
  apply_range-Fails minfd keep_fds s le i up e =
      let (above, same) = drop_until_lem keep_fds minfd up in
      elim (drop-position (λ fd. leb_ℤ minfd fd) keep_fds) [
        | inl (_, f) ↦
            absurd (true≢false (sym e ∙ sym (same int_max le) ∙ ap (λ l. contains l int_max) f))
        | inr (n, y, ys, q, d, f) ↦
            rw (q, apply_range, d)
              (from minfd y ys s (subst (All IsInt) f (All-drop_until IsInt _ keep_fds i))
                (subst (Ascends minfd) f above).1
                (sym (ap (λ l. contains l int_max) f) ∙ same int_max le ∙ e))
      ]
    where
      from :
          (minfd y : ℤ) (ys : List ℤ) (s : S)
          → All IsInt (y ∷ ys)
          → Ascends y ys
          → contains (y ∷ ys) int_max ≡ true
          → Fails (apply_from func minfd (y ∷ ys) s)
      from minfd y ys s i up e =
          and_then-Fails
            (if ltb_ℤ minfd y then func minfd (wrap_int (y -ℤ pos 1)) else pure (ok tt))
            (apply_gaps func y ys) s (λ t. apply_gaps-Fails y ys t i up e)
