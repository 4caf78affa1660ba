-- ===== src/Common/Results.antt =====
-- The result of a Go function that returns a value and an error, and the chain of its steps.
use mathlib.Core.Path.{◌≡◌, refl}

pub data Result {ℓ} (E A : Type ℓ) : Type ℓ where
  ok : A → Result E A
  fail : E → Result E A

infixl 5 ◌>>=◌
-- The rest of a function after a step, which an error of the step skips.
abbrev pub ◌>>=◌ {ℓ} : {E A B : Type ℓ} → Result E A → (A → Result E B) → Result E B
ok a >>= f = f a
fail e >>= f = fail e

-- What is true of the value of a result, if it has one.
abbrev pub Holds {ℓ κ} : {E A : Type ℓ} → (A → Type κ) → Result E A → Type κ
Holds P (ok a) = P a
Holds P (fail e) = Unit

pub Holds-self {ℓ} : {E A : Type ℓ} (m : Result E A) → Holds (λ a. m ≡ ok a) m
Holds-self (ok a) = refl
Holds-self (fail e) = tt

-- A chain: what its first step gives, and then the rest.
pub >>=-Holds {ℓ κ} :
    {E A B : Type ℓ} {Q : A → Type κ} (P : B → Type κ) (m : Result E A) (f : A → Result E B)
    → Holds Q m
    → ((a : A) → Q a → Holds P (f a))
    → Holds P (m >>= f)
>>=-Holds P (ok a) f q next = next a q
>>=-Holds P (fail e) f q next = tt
