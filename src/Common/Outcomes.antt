-- ===== src/Common/Outcomes.antt =====
-- A Python call: it returns a value, or an exception escapes it.
use mathlib.Core.Path.{◌≡◌, refl}
use mathlib.Core.Logic.{◌⊎◌, inl, inr}

pub data Outcome {ℓ} (A : Type ℓ) : Type ℓ where
  raised : Outcome A
  returned : A → Outcome A

infixl 5 ◌>>=◌ ◌>>◌
abbrev pub ◌>>=◌ {ℓ κ} : {A : Type ℓ} {B : Type κ} → Outcome A → (A → Outcome B) → Outcome B
raised >>= f = raised
returned a >>= f = f a

abbrev pub ◌>>◌ {ℓ} : {B : Type ℓ} → Outcome (Unit {0}) → Outcome B → Outcome B
m >> k = m >>= λ _. k

-- `try: ... except Exception: fallback`
abbrev pub catch {ℓ} : {A : Type ℓ} → Outcome A → A → A
catch raised fallback = fallback
catch (returned a) fallback = a

pub Outcome-cases {ℓ} : {A : Type ℓ} (o : Outcome A) → (o ≡ raised) ⊎ ((a : A) × (o ≡ returned a))
Outcome-cases raised = inl refl
Outcome-cases (returned a) = inr (a, refl)

-- Inversion of a block that returned.
pub >>=-eq-returned {ℓ κ} :
    {A : Type ℓ} {B : Type κ} (m : Outcome A) (f : A → Outcome B) {b : B}
    → (m >>= f) ≡ returned b
    → (a : A) × (m ≡ returned a) × (f a ≡ returned b)
>>=-eq-returned raised f h = cc
>>=-eq-returned (returned a) f h = (a, refl, h)

pub returned-injective {ℓ} : {A : Type ℓ} {a b : A} → returned a ≡ returned b → a ≡ b
returned-injective h = cc
