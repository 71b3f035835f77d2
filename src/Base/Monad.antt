-- ===== src/Base/Monad.antt =====
-- Stateful code that may fail to finish: an action returns a value and the new state, or `none` when
-- its fuel ran out. `Returns` is total correctness: the action finishes, and its result satisfies the
-- postcondition.
use mathlib.Core.Option.{Option, none, some}

-- Rust's `Result<A, ()>`.
pub data Result {ℓ} (A : Type ℓ) : Type ℓ where
  ok : A → Result A
  err : Result A

abbrev pub Action {ℓ κ} : Type ℓ → Type κ → Type (ℓ ⊔ κ)
Action S A = S → Option (A × S)

module _ {ℓ} {S : Type ℓ} where
  abbrev pub pure {κ} : {A : Type κ} → A → Action S A
  pure a s = some (a, s)

  abbrev pub get : Action S S
  get s = some (s, s)

  abbrev pub modify : (S → S) → Action S (Unit {0})
  modify f s = some (tt, f s)

  -- What follows a finished action.
  abbrev pub bind {κ μ} :
      {A : Type κ} {B : Type μ} → Option (A × S) → (A → Action S B) → Option (B × S)
  bind none f = none
  bind (some (a, s)) f = f a s

  infixl 5 ◌>>=◌ ◌>>◌
  abbrev pub ◌>>=◌ {κ μ} : {A : Type κ} {B : Type μ} → Action S A → (A → Action S B) → Action S B
  ◌>>=◌ m f s = bind (m s) f

  abbrev pub ◌>>◌ {μ} : {B : Type μ} → Action S (Unit {0}) → Action S B → Action S B
  m >> k = m >>= λ _. k

  -- Rust's `?` on a `Result<(), ()>`: an error ends the caller with that error.
  abbrev pub and_then :
      Action S (Result (Unit {0})) → Action S (Result (Unit {0})) → Action S (Result (Unit {0}))
  and_then m k = m >>= λ r. elim r [ ok _ ↦ k | err ↦ pure err ]

  abbrev pub Returns {κ} : {A : Type κ} → Option (A × S) → (A → S → Type 0) → Type 0
  Returns none P = ⊥
  Returns (some (a, s)) P = P a s

  pub Returns-mono {κ} :
      {A : Type κ} (P Q : A → S → Type 0) (r : Option (A × S))
      → Returns r P
      → ((a : A) (t : S) → P a t → Q a t)
      → Returns r Q
  Returns-mono P Q none h k = absurd h
  Returns-mono P Q (some (a, s)) h k = k a s h

  pub Returns-bind {κ μ} :
      {A : Type κ} {B : Type μ} (P : A → S → Type 0) (Q : B → S → Type 0) (r : Option (A × S))
      (f : A → Action S B)
      → Returns r P
      → ((a : A) (t : S) → P a t → Returns (f a t) Q)
      → Returns (bind r f) Q
  Returns-bind P Q none f h k = absurd h
  Returns-bind P Q (some (a, s)) f h k = k a s h

  pub Returns-and_then :
      (P Q : Result (Unit {0}) → S → Type 0) (m k : Action S (Result (Unit {0}))) (s : S)
      → Returns (m s) P
      → ((t : S) → P (ok tt) t → Returns (k t) Q)
      → ((t : S) → P err t → Q err t)
      → Returns (and_then m k s) Q
  Returns-and_then P Q m k s h f g = go (m s) h
    where
      go :
          (r : Option (Result (Unit {0}) × S))
          → Returns r P
          → Returns (bind r (λ o. elim o [ ok _ ↦ k | err ↦ pure err ])) Q
      go none h = absurd h
      go (some (ok u, t)) h = f t h
      go (some (err, t)) h = g t h

  -- What holds of a result, if there is one.
  abbrev pub IfReturns {κ} : {A : Type κ} → Option (A × S) → (A → S → Type 0) → Type 0
  IfReturns none P = Unit
  IfReturns (some (a, s)) P = P a s

  pub IfReturns-bind {κ μ} :
      {A : Type κ} {B : Type μ} (P : A → S → Type 0) (Q : B → S → Type 0) (r : Option (A × S))
      (f : A → Action S B)
      → IfReturns r P
      → ((a : A) (t : S) → P a t → IfReturns (f a t) Q)
      → IfReturns (bind r f) Q
  IfReturns-bind P Q none f h k = tt
  IfReturns-bind P Q (some (a, s)) f h k = k a s h

  pub Returns-both {κ} :
      {A : Type κ} (P Q : A → S → Type 0) (r : Option (A × S))
      → Returns r P
      → IfReturns r Q
      → Returns r (λ a t. P a t × Q a t)
  Returns-both P Q none h k = absurd h
  Returns-both P Q (some (a, s)) h k = (h, k)

  pub Returns-IfReturns {κ} :
      {A : Type κ} (P : A → S → Type 0) (r : Option (A × S)) → Returns r P → IfReturns r P
  Returns-IfReturns P none h = tt
  Returns-IfReturns P (some (a, s)) h = h

  pub Returns-value {κ} :
      {A : Type κ} (P : A → S → Type 0) (r : Option (A × S))
      → Returns r P
      → (a : A) × (s : S) × P a s
  Returns-value P none h = absurd h
  Returns-value P (some (a, s)) h = (a, s, h)
