-- ===== src/Prelude/Raising.antt =====
-- Calls that may raise. The source never branches on the text of an exception, so a raise carries
-- none; where the kind of failure matters the model uses a result type of its own.
use mathlib.Core.Path.{◌≡◌, refl}
use mathlib.Core.Logic.{◌⊎◌, inl, inr}
use mathlib.Core.Bool.{Bool, true, false}

pub data Outcome {ℓ} (A : Type ℓ) : Type ℓ where
  value : A → Outcome A
  raised : Outcome A

infixl 5 ◌>>=◌ ◌>>◌
abbrev pub ◌>>=◌ {ℓ κ} : {A : Type ℓ} {B : Type κ} → Outcome A → (A → Outcome B) → Outcome B
value a >>= f = f a
raised >>= f = raised

abbrev pub ◌>>◌ {ℓ κ} : {A : Type ℓ} {B : Type κ} → Outcome A → Outcome B → Outcome B
m >> k = m >>= λ _. k

-- `if bad: raise`
abbrev pub raise_if : Bool → Outcome (Unit {0})
raise_if true = raised
raise_if false = value tt

pub >>=-eq-value {ℓ κ} :
    {A : Type ℓ} {B : Type κ} (m : Outcome A) (f : A → Outcome B) {b : B}
    → (m >>= f) ≡ value b
    → (a : A) × (m ≡ value a) × (f a ≡ value b)
>>=-eq-value (value a) f h = (a, refl, h)
>>=-eq-value raised f h = cc

pub Outcome-cases {ℓ} : {A : Type ℓ} (m : Outcome A) → (m ≡ raised) ⊎ ((a : A) × (m ≡ value a))
Outcome-cases raised = inl refl
Outcome-cases (value a) = inr (a, refl)

pub value-injective {ℓ} : {A : Type ℓ} {a b : A} → value a ≡ value b → a ≡ b
value-injective h = cc

pub value-ne-raised {ℓ} : {A : Type ℓ} {a : A} → ¬ (value a ≡ raised)
value-ne-raised h = cc
