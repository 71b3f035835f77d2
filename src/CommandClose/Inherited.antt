-- ===== src/CommandClose/Inherited.antt =====
-- The descriptors that a program that the child runs inherits (examples/command-close.rs).
use Prim.Native.Nat.{bit_and, bit_or, bit_and-bitwise}
use close_fds.Base.{
  ℕ, zero, suc, ◌%◌, ◌≡◌, refl, ◌∙◌, inl, inr, Bool, true, false, ◌&&◌, none, some, if◌then◌else◌,
  ◌==◌, arith, ℤ, pos, pos_part, ◌≤ℤ◌, ◌<ℤ◌, leb_ℤ, eqb_ℤ, eqb_ℤ-iff, Returns, Returns-mono, ap,
  int_max, ◌*◌, ◌/◌, negsuc, Bool-cases,
}
use mathlib.Core.Path.{subst}
use close_fds.Kernel.{Kernel}
use close_fds.Kernel.Flags.{with_cloexec, bit_and-one, bit_or-odd}
use close_fds.Process.{Process}
use close_fds.Util.Simplify.{IsBelowMax}
use close_fds.CommandClose.Bits.{bit_and-mask, bit_and-twice}
use close_fds.CommandClose.{Calls, cleared, unset_cloexec}

-- Open, with the flag `FD_CLOEXEC` not set, as the answer of `F_GETFD` tells.
abbrev pub is_inherited : ℤ → Bool
is_inherited flags = leb_ℤ (pos 0) flags && (bit_and (pos_part flags) 1 == 0)

-- The flags without `FD_CLOEXEC`, which is the lowest bit.
abbrev pub without_cloexec : ℤ → ℤ
without_cloexec flags = pos (pos_part flags / 2 * 2)

-- What the program leaves as the answer of `F_GETFD`, where this was not negative.
abbrev pub left : ℤ → ℤ
left flags = if bit_and (pos_part flags) 1 == 0 then flags else cleared flags

left-without_cloexec :
    (flags : ℤ) → pos 0 ≤ℤ flags → flags ≤ℤ int_max → left flags ≡ without_cloexec flags
left-without_cloexec (pos n) live fits = elim (Bool-cases (bit_and n 1 == 0)) [
  | inl clear ↦ rw clear (ap pos (ground (arith, bit_and-one n, clear)))
  | inr set ↦ rw set (ap pos (bit_and-mask n (omega arith)))
]
left-without_cloexec (negsuc n) live fits = absurd (omega arith)

bit_and-even : (a : ℕ) → bit_and a 4294967294 % 2 ≡ 0
bit_and-even zero = omega (arith, bit_and-bitwise 0 4294967294)
bit_and-even (suc a) = omega (arith, bit_and-bitwise (suc a) 4294967294)

pub unmarked : (flags : ℤ) → pos 0 ≤ℤ flags → is_inherited (left flags) ≡ true
unmarked flags live =
    ground (arith, bit_and-one (bit_and (pos_part flags) 4294967294), bit_and-even (pos_part flags))

pub marked : (flags : ℤ) → is_inherited (with_cloexec flags) ≡ false
marked flags = ground (
  arith,
  bit_and-one (pos_part flags),
  bit_and-one (bit_or (pos_part flags) 1),
  bit_or-odd (pos_part flags),
)

module _ (K : Kernel) (C : Calls K) where
  -- A file that is opened has a new descriptor, and `F_SETFD` sets the flags of an open descriptor to any
  -- that it has.
  pub record IsCalls : Type 0 where
    pub opened_lem :
        (fd : ℤ) (w v : K.World)
        → C.open_root w ≡ some (fd, v)
        → IsBelowMax fd × (pos 0 ≤ℤ K.getfd fd v)
    pub others_lem :
        (fd j : ℤ) (w v : K.World)
        → C.open_root w ≡ some (fd, v)
        → pos 0 ≤ℤ K.getfd j w
        → K.getfd j v ≡ K.getfd j w
    pub result_lem :
        (fd flags : ℤ) (w : K.World) → pos 0 ≤ℤ K.getfd fd w → C.setfd_result fd flags w ≡ pos 0
    pub setfd_lem :
        (fd : ℤ) (flags : ℕ) (j : ℤ) (w : K.World)
        → pos 0 ≤ℤ K.getfd fd w
        → bit_and flags (pos_part (K.getfd fd w)) ≡ flags
        → K.getfd j (K.setfd fd (pos flags) w) ≡ (if eqb_ℤ fd j then pos flags else K.getfd j w)

  -- The effect on the table, where the flag is clear and where it is set.
  kept_at :
      (fd j : ℤ) (w : K.World)
      → bit_and (pos_part (K.getfd fd w)) 1 == 0 ≡ true
      → K.getfd j w ≡ (if eqb_ℤ fd j then left (K.getfd j w) else K.getfd j w)
  kept_at fd j w unset = elim (Bool-cases (eqb_ℤ fd j)) [
    | inl same ↦
        let flags : K.getfd j w ≡ left (K.getfd j w) =
          subst (λ i. K.getfd i w ≡ left (K.getfd i w)) ((eqb_ℤ-iff fd j).0 same) (rw unset refl) in
        rw same flags
    | inr other ↦ rw other refl
  ]

  cleared_at :
      (fd j : ℤ) (w : K.World)
      → bit_and (pos_part (K.getfd fd w)) 1 == 0 ≡ false
      → (if eqb_ℤ fd j then cleared (K.getfd fd w) else K.getfd j w)
        ≡ (if eqb_ℤ fd j then left (K.getfd j w) else K.getfd j w)
  cleared_at fd j w set = elim (Bool-cases (eqb_ℤ fd j)) [
    | inl same ↦
        let flags : cleared (K.getfd fd w) ≡ left (K.getfd j w) =
          subst (λ i. cleared (K.getfd fd w) ≡ left (K.getfd i w)) ((eqb_ℤ-iff fd j).0 same)
            (rw set refl) in
        rw same flags
    | inr other ↦ rw other refl
  ]

  module _ (I : IsCalls) where
    -- The branches of `unset_cloexec`.
    pub unset_cloexec-left :
        (fd : ℤ) (p : Process K)
        → (pos 0 ≤ℤ K.getfd fd p.world
            → Returns (unset_cloexec K C fd p) (λ _ q.
              (j : ℤ)
              → K.getfd j q.world
                ≡ (if eqb_ℤ fd j then left (K.getfd j p.world) else K.getfd j p.world)))
          × (K.getfd fd p.world <ℤ pos 0 → unset_cloexec K C fd p ≡ none)
    unfolding unset_cloexec
    unset_cloexec-left fd p = (
      λ live.
          let shown : leb_ℤ (pos 0) (K.getfd fd p.world) ≡ true = ground arith in
          let success : C.setfd_result fd (cleared (K.getfd fd p.world)) p.world ≡ pos 0 =
            I.result_lem fd (cleared (K.getfd fd p.world)) p.world live in
          elim (Bool-cases (bit_and (pos_part (K.getfd fd p.world)) 1 == 0)) [
            | inl unset ↦ rw (shown, unset) (λ j. kept_at fd j p.world unset)
            | inr set ↦
                rw (shown, set, success)
                  (λ j.
                    I.setfd_lem fd (bit_and (pos_part (K.getfd fd p.world)) 4294967294) j p.world
                      live (bit_and-twice (pos_part (K.getfd fd p.world)) 4294967294)
                    ∙ cleared_at fd j p.world set)
          ],
      λ gone.
          let hidden : leb_ℤ (pos 0) (K.getfd fd p.world) ≡ false = ground arith in rw hidden refl,
    )

    -- Over calls that keep their promises, for a descriptor whose flags fit into a `c_int`:
    -- `unset_cloexec` ends if it is open, and then its flag `FD_CLOEXEC`, which is the lowest bit, is
    -- clear, with its other flags and every other descriptor as they were; for a descriptor that is not
    -- open it panics.
    pub unset_cloexec-Unset :
        (fd : ℤ) (p : Process K)
        → K.getfd fd p.world ≤ℤ int_max
        → (pos 0 ≤ℤ K.getfd fd p.world
            → Returns (unset_cloexec K C fd p) (λ _ q.
              (j : ℤ)
              → K.getfd j q.world
                ≡ (if eqb_ℤ fd j then without_cloexec (K.getfd j p.world) else K.getfd j p.world)))
          × (K.getfd fd p.world <ℤ pos 0 → unset_cloexec K C fd p ≡ none)
    unset_cloexec-Unset fd p fits = (
      λ live.
          Returns-mono _ _ (unset_cloexec K C fd p) ((unset_cloexec-left fd p).0 live)
            (λ _ q shown j. shown j ∙ spelled j live),
      (unset_cloexec-left fd p).1,
    )
      where
        spelled :
            (j : ℤ)
            → pos 0 ≤ℤ K.getfd fd p.world
            → (if eqb_ℤ fd j then left (K.getfd j p.world) else K.getfd j p.world)
              ≡ (if eqb_ℤ fd j then without_cloexec (K.getfd j p.world) else K.getfd j p.world)
        spelled j live = elim (Bool-cases (eqb_ℤ fd j)) [
          | inl same ↦
              let at = left-without_cloexec (K.getfd fd p.world) live fits in
              rw same (
                subst (λ i. left (K.getfd i p.world) ≡ without_cloexec (K.getfd i p.world))
                  ((eqb_ℤ-iff fd j).0 same) at)
          | inr other ↦ rw other refl
        ]
