-- ===== src/Kernel/Effect.antt =====
-- How a call may change the flags of the descriptors: all in a set by an effect, or only some of them.
-- To close a descriptor is one such effect, to mark it as close-on-exec another.
use close_fds.Base.{
  ◌≡◌, refl, ◌⊎◌, Bool, true, ◌||◌, if◌then◌else◌, arith, ℤ, negsuc, IsInt, Result, ok, err,
}
use close_fds.Kernel.{Kernel}

-- An effect that is done twice is done, and one that a closed descriptor does not notice.
pub record IsEffect (eff : ℤ → ℤ) : Type 0 where
  pub twice : (flags : ℤ) → eff (eff flags) ≡ eff flags
  pub absent : eff (negsuc 0) ≡ negsuc 0

abbrev pub closed : ℤ → ℤ
closed flags = negsuc 0

pub closed-IsEffect : IsEffect closed
closed-IsEffect = record { twice = λ flags. refl; absent = refl }

module _ (K : Kernel) (eff : ℤ → ℤ) where
  abbrev pub ChangesExactly : (ℤ → Bool) → K.World → K.World → Type 0
  ChangesExactly P w w' =
      (j : ℤ) → IsInt j → K.getfd j w' ≡ (if P j then eff (K.getfd j w) else K.getfd j w)

  abbrev pub ChangesSome : (ℤ → Bool) → K.World → K.World → Type 0
  ChangesSome P w w' =
      (j : ℤ)
      → IsInt j
      → (K.getfd j w' ≡ K.getfd j w) ⊎ ((P j ≡ true) × (K.getfd j w' ≡ eff (K.getfd j w)))

  -- A call that succeeds has changed the whole set, and one that fails some of it.
  abbrev pub Attempts : (ℤ → Bool) → K.World → Result (Unit {0}) → K.World → Type 0
  Attempts P w (ok _) w' = ChangesExactly P w w'
  Attempts P w err w' = ChangesSome P w w'

  pub exactly_or :
      (P Q R : ℤ → Bool) (u v w : K.World)
      → IsEffect eff
      → ChangesExactly P u v
      → ChangesExactly Q v w
      → ((j : ℤ) → IsInt j → R j ≡ (P j || Q j))
      → ChangesExactly R u w
  exactly_or P Q R u v w e f g r j i = ground (arith, e.twice (K.getfd j u), f j i, g j i, r j i)

  pub exactly_some :
      (P Q R : ℤ → Bool) (u v w : K.World)
      → IsEffect eff
      → ChangesExactly P u v
      → ChangesSome Q v w
      → ((j : ℤ) → IsInt j → R j ≡ (P j || Q j))
      → ChangesSome R u w
  exactly_some P Q R u v w e f g r j i = ground (arith, e.twice (K.getfd j u), f j i, g j i, r j i)

  exactly_mono :
      (P Q : ℤ → Bool) (u v : K.World)
      → ChangesExactly P u v
      → ((j : ℤ) → IsInt j → P j ≡ Q j)
      → ChangesExactly Q u v
  exactly_mono P Q u v f h j i = ground (arith, f j i, h j i)

  some_mono :
      (P Q : ℤ → Bool) (u v : K.World)
      → ChangesSome P u v
      → ((j : ℤ) → IsInt j → P j ≡ true → Q j ≡ true)
      → ChangesSome Q u v
  some_mono P Q u v f h j i = ground (arith, f j i, h j i)

  pub Attempts-cong :
      (P Q : ℤ → Bool) (u v : K.World) (r : Result (Unit {0}))
      → ((j : ℤ) → IsInt j → P j ≡ Q j)
      → Attempts P u r v
      → Attempts Q u r v
  Attempts-cong P Q u v (ok _) h f = exactly_mono P Q u v f h
  Attempts-cong P Q u v err h f = some_mono P Q u v f (λ j i e. ground (arith, h j i))

  -- `r` is the outcome of the rest, after a first part that has changed all of its set.
  pub Attempts-or :
      (P Q R : ℤ → Bool) (u v w : K.World) (r : Result (Unit {0}))
      → IsEffect eff
      → ChangesExactly P u v
      → Attempts Q v r w
      → ((j : ℤ) → IsInt j → R j ≡ (P j || Q j))
      → Attempts R u r w
  Attempts-or P Q R u v w (ok _) e f g h = exactly_or P Q R u v w e f g h
  Attempts-or P Q R u v w err e f g h = exactly_some P Q R u v w e f g h
