-- ===== src/Base/Returns.antt =====
-- Total correctness of a step: it does not fault, and a postcondition holds of what it returns.
use mathlib.Core.Option.{some-injective}
use pecl_eio.Base.{Option, none, some, ◌≡◌, refl, subst, ◌>>=◌}

pub data Returns {ℓ κ} {A : Type ℓ} (P : A → Type κ) : Option A → Type (ℓ ⊔ κ) where
  returns : {a : A} → P a → Returns P (some a)

module _ {A : Type 0} {P : A → Type 0} where
  pub bind :
      {B : Type 0} {Q : B → Type 0} {m : Option A} {k : A → Option B}
      → Returns P m
      → ((a : A) → P a → Returns Q (k a))
      → Returns Q (m >>= k)
  bind (returns p) next = next _ p

  pub mono : {Q : A → Type 0} {m : Option A} → Returns P m → ((a : A) → P a → Q a) → Returns Q m
  mono (returns p) weaken = returns (weaken _ p)

  -- What holds of a step that has returned `a`.
  -- What is computed is known.
  pub known : {m : Option A} → Returns P m → Returns (λ a. (m ≡ some a) × P a) m
  known (returns p) = returns (refl, p)

  pub result : {m : Option A} {a : A} → Returns P m → m ≡ some a → P a
  result (returns p) e = subst P (some-injective _ _ e) p

  -- A step that faults after one that does not.
  pub faults :
      {B : Type 0} {m : Option A} {k : A → Option B}
      → Returns P m
      → ((a : A) → P a → k a ≡ none)
      → (m >>= k) ≡ none
  faults (returns p) next = next _ p

  -- What a step returns.
  pub taken : {m : Option A} → Returns P m → (a : A) × (m ≡ some a) × P a
  taken (returns p) = (_, refl, p)
