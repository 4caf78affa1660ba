-- ===== src/Common/Maps.antt =====
-- Go maps as association lists over keys with decidable equality, and Go strings as byte lists.
use Prim.Native.Nat.{ℕ}
use mathlib.Core.Path.{◌≡◌, refl}
use mathlib.Core.Logic.{ite, ◌≢◌}
use mathlib.Core.List.{List, [], ◌∷◌, map}
use mathlib.Core.Option.{Option, none, some}
use mathlib.Core.Bool.{Bool, true, false}
use dinosaur_dns.Common.Bools.{holds, holds_yes, holds_no}
use native.Mathlib.Omega.{arith}
use native.Mathlib.Decide.{ℕ_discrete}

abbrev pub Map {ℓ} : Type ℓ → Type ℓ → Type ℓ
Map K V = List (K × V)

abbrev pub Str : Type 0
Str = List ℕ

unfoldable pub Str-discrete : Discrete Str
Str-discrete = hlevel ℕ_discrete

module _ {ℓ} {K V : Type ℓ} where
  abbrev pub keys : Map K V → List K
  keys = map (λ e. e.0)

module _ {ℓ} {K V : Type ℓ} (dec : Discrete K) where
  -- v, ok := m[k]
  unfoldable pub lookup : K → Map K V → Option V
  lookup k [] = none
  lookup k ((j, v) ∷ m) = ite (dec j k) (some v) (lookup k m)

  -- m[k] = v
  unfoldable pub insert : K → V → Map K V → Map K V
  insert k v [] = (k, v) ∷ []
  insert k v ((j, w) ∷ m) = ite (dec j k) ((k, v) ∷ m) ((j, w) ∷ insert k v m)

  -- delete(m, k)
  unfoldable pub erase : K → Map K V → Map K V
  erase k [] = []
  erase k ((j, v) ∷ m) = let rest = erase k m in ite (dec j k) rest ((j, v) ∷ rest)

  pub lookup-insert :
      (k j : K) (v : V) (m : Map K V)
      → lookup j (insert k v m) ≡ ite (dec k j) (some v) (lookup j m)
  unfolding lookup insert
  lookup-insert k j v [] = refl
  lookup-insert k j v ((i, w) ∷ m) = ground (arith, lookup-insert k j v m)

  pub lookup-erase :
      (k j : K) (m : Map K V) → lookup j (erase k m) ≡ ite (dec k j) none (lookup j m)
  unfolding lookup erase
  lookup-erase k j [] = ground arith
  lookup-erase k j ((i, w) ∷ m) = ground (arith, lookup-erase k j m)

-- Go's == on strings.
abbrev pub str_eq : Str → Str → Bool
str_eq a b = holds (Str-discrete a b)

pub str_eq_self : (s : Str) → str_eq s s ≡ true
str_eq_self s = holds_yes (Str-discrete s s) refl

pub str_eq_ne : (a b : Str) → a ≢ b → str_eq a b ≡ false
str_eq_ne a b different = holds_no (Str-discrete a b) different
