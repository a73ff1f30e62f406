-- ===== src/Outcome.antt =====
-- How a run of the compiler's code ends: with a value, in an internal compiler error (`ICE`,
-- `ICE_IF` of utils.h, which abort), in `exit(1)`, in undefined behaviour, or, for a loop of the
-- model, with its fuel used up.
use lacsap.Prelude.{Bool, true, false, ◌≡◌, refl, if◌then◌else◌}

pub data Outcome {ℓ} (A : Type ℓ) : Type ℓ where
  done : A → Outcome A
  ice : Outcome A
  out_of_fuel : Outcome A
  -- `exit(1)`, after too many messages
  exited : Outcome A
  -- behaviour that C++ leaves undefined, such as a use of a null pointer
  undefined : Outcome A

infixl 5 ◌>>=◌ ◌>>◌
abbrev pub ◌>>=◌ {ℓ κ} : {A : Type ℓ} {B : Type κ} → Outcome A → (A → Outcome B) → Outcome B
done a >>= f = f a
ice >>= f = ice
out_of_fuel >>= f = out_of_fuel
exited >>= f = exited
undefined >>= f = undefined

abbrev pub ◌>>◌ {ℓ} : {B : Type ℓ} → Outcome (Unit {0}) → Outcome B → Outcome B
m >> k = m >>= λ _. k

-- `ICE_IF`
abbrev pub ice_if : Bool → Outcome (Unit {0})
ice_if true = ice
ice_if false = done tt

-- The run ends with a value, and the value has the property.
pub data Ends {ℓ} {A : Type ℓ} (P : A → Type 0) : Outcome A → Type ℓ where
  ends : (a : A) → P a → Ends P (done a)

module _ {ℓ} {A B : Type ℓ} where
  pub Ends-bind :
      {P : A → Type 0} {Q : B → Type 0} (m : Outcome A) (f : A → Outcome B)
      → Ends P m
      → ((a : A) → P a → Ends Q (f a))
      → Ends Q (m >>= f)
  Ends-bind m f (ends a p) k = k a p

module _ {ℓ} {A : Type ℓ} {P : A → Type 0} where
  pub Ends-weaken : {Q : A → Type 0} {m : Outcome A} → ((a : A) → P a → Q a) → Ends P m → Ends Q m
  Ends-weaken k (ends a p) = ends a (k a p)

  pub Ends-value : {m : Outcome A} → Ends P m → (a : A) × (m ≡ done a) × P a
  Ends-value (ends a p) = (a, refl, p)

  pub Ends-if :
      (b : Bool) {m n : Outcome A}
      → (b ≡ true → Ends P m)
      → (b ≡ false → Ends P n)
      → Ends P (if b then m else n)
  Ends-if true h k = h refl
  Ends-if false h k = k refl

-- A sequence that ends with a value has a first part that does.
pub bind-done {ℓ} :
    {A B : Type ℓ} (m : Outcome A) (f : A → Outcome B) (b : B)
    → (m >>= f) ≡ done b
    → (a : A) × (m ≡ done a) × (f a ≡ done b)
bind-done (done a) f b e = (a, refl, e)
bind-done ice f b e = cc
bind-done out_of_fuel f b e = cc
bind-done exited f b e = cc
bind-done undefined f b e = cc
