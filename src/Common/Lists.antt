-- ===== src/Common/Lists.antt =====
-- Lists measured and indexed by native numbers, under the library's names.
use Prim.Native.Nat.{ℕ, zero, suc, ◌+◌, ◌-◌, ◌≤◌, ◌<◌, min}
use mathlib.Core.Path.{◌≡◌, refl, ap}
use mathlib.Core.List.{reverse, reverse-cons}
use native.Mathlib.Decide.{dec_lt}
use mathlib.Core.Logic.{◌≢◌, ◌⊎◌, inl, inr}
use mathlib.Core.Bool.{Bool}
use mathlib.Core.List.{List, [], ◌∷◌, ◌++◌, map}
use mathlib.Core.Option.{Option, none, some}
use native.Mathlib.Omega.{arith}
use dinosaur_dns.Common.Bools.{◌==◌, if◌then◌else◌}

module _ {ℓ} {A : Type ℓ} where
  abbrev pub length : List A → ℕ
  length [] = 0
  length (x ∷ xs) = suc (length xs)

  abbrev pub get_elem? : List A → ℕ → Option A
  get_elem? [] i = none
  get_elem? (x ∷ xs) zero = some x
  get_elem? (x ∷ xs) (suc i) = get_elem? xs i

  abbrev pub set : List A → ℕ → A → List A
  set [] i v = []
  set (x ∷ xs) zero v = v ∷ xs
  set (x ∷ xs) (suc i) v = x ∷ set xs i v

  abbrev pub take : ℕ → List A → List A
  take zero xs = []
  take (suc n) [] = []
  take (suc n) (x ∷ xs) = x ∷ take n xs

  abbrev pub drop : ℕ → List A → List A
  drop zero xs = xs
  drop (suc n) [] = []
  drop (suc n) (x ∷ xs) = drop n xs

  abbrev pub replicate : ℕ → A → List A
  replicate zero a = []
  replicate (suc n) a = a ∷ replicate n a

  abbrev pub All {κ} : (A → Type κ) → List A → Type κ
  All P [] = Unit
  All P (x ∷ xs) = P x × All P xs

  -- The elements that pass a Boolean test.
  abbrev pub filter_by : (A → Bool) → List A → List A
  filter_by p [] = []
  filter_by p (x ∷ xs) = if p x then x ∷ filter_by p xs else filter_by p xs

  pub length-append : (xs ys : List A) → length (xs ++ ys) ≡ length xs + length ys
  length-append [] ys = omega arith
  length-append (x ∷ xs) ys = omega (arith, length-append xs ys)

  pub length-set : (xs : List A) (i : ℕ) (v : A) → length (set xs i v) ≡ length xs
  length-set [] i v = refl
  length-set (x ∷ xs) zero v = refl
  length-set (x ∷ xs) (suc i) v = ap suc (length-set xs i v)

  pub length-replicate : (n : ℕ) (a : A) → length (replicate n a) ≡ n
  length-replicate zero a = refl
  length-replicate (suc n) a = ap suc (length-replicate n a)

  pub get_elem?-set_self :
      (xs : List A) (i : ℕ) (v : A) → i < length xs → get_elem? (set xs i v) i ≡ some v
  get_elem?-set_self [] i v h = elim h [ ]
  get_elem?-set_self (x ∷ xs) zero v h = refl
  get_elem?-set_self (x ∷ xs) (suc i) v h = get_elem?-set_self xs i v (omega arith)

  pub get_elem?-set_ne :
      (xs : List A) (i j : ℕ) (v : A) → i ≢ j → get_elem? (set xs i v) j ≡ get_elem? xs j
  get_elem?-set_ne [] i j v h = refl
  get_elem?-set_ne (x ∷ xs) zero zero v h = absurd (h refl)
  get_elem?-set_ne (x ∷ xs) zero (suc j) v h = refl
  get_elem?-set_ne (x ∷ xs) (suc i) zero v h = refl
  get_elem?-set_ne (x ∷ xs) (suc i) (suc j) v h = get_elem?-set_ne xs i j v (λ e. h (ap suc e))

  -- Inside the bounds there is an element.
  pub get_elem?-lt-length :
      (xs : List A) (i : ℕ) → i < length xs → (a : A) × (get_elem? xs i ≡ some a)
  get_elem?-lt-length [] i h = elim h [ ]
  get_elem?-lt-length (x ∷ xs) zero h = (x, refl)
  get_elem?-lt-length (x ∷ xs) (suc i) h = get_elem?-lt-length xs i (omega arith)

module _ {ℓ} {A : Type ℓ} where
  pub drop-cons :
      (xs : List A) (i : ℕ)
      → i < length xs
      → (x : A) × (get_elem? xs i ≡ some x) × (drop i xs ≡ x ∷ drop (suc i) xs)
  drop-cons [] i h = absurd (omega arith)
  drop-cons (x ∷ xs) zero h = (x, refl, refl)
  drop-cons (x ∷ xs) (suc i) h = drop-cons xs i (omega arith)

  pub length-take : (n : ℕ) (xs : List A) → length (take n xs) ≡ min n (length xs)
  length-take zero xs = omega arith
  length-take (suc n) [] = omega arith
  length-take (suc n) (x ∷ xs) = omega (arith, length-take n xs)

  pub take-nil : (n : ℕ) → take {A = A} n [] ≡ []
  take-nil zero = refl
  take-nil (suc n) = refl

  pub length-drop : (n : ℕ) (xs : List A) → length (drop n xs) ≡ length xs - n
  length-drop zero xs = omega arith
  length-drop (suc n) [] = omega arith
  length-drop (suc n) (x ∷ xs) = omega (arith, length-drop n xs)

  pub drop_of_length-le : (n : ℕ) (xs : List A) → length xs ≤ n → drop n xs ≡ []
  drop_of_length-le zero [] h = refl
  drop_of_length-le zero (x ∷ xs) h = absurd (omega arith)
  drop_of_length-le (suc n) [] h = refl
  drop_of_length-le (suc n) (x ∷ xs) h = drop_of_length-le n xs (omega arith)

  pub take_of_length-le : (n : ℕ) (xs : List A) → length xs ≤ n → take n xs ≡ xs
  take_of_length-le n [] fits = take-nil n
  take_of_length-le zero (y ∷ ys) fits = absurd (omega arith)
  take_of_length-le (suc n) (y ∷ ys) fits =
      let rest = take_of_length-le n ys (omega arith) in rw rest refl

  pub get_elem?-take : (n i : ℕ) (xs : List A) → i < n → get_elem? (take n xs) i ≡ get_elem? xs i
  get_elem?-take zero i xs h = absurd (omega arith)
  get_elem?-take (suc n) i [] h = refl
  get_elem?-take (suc n) zero (x ∷ xs) h = refl
  get_elem?-take (suc n) (suc i) (x ∷ xs) h = get_elem?-take n i xs (omega arith)

  get_elem?-append_left :
      (xs ys : List A) (i : ℕ) → i < length xs → get_elem? (xs ++ ys) i ≡ get_elem? xs i
  get_elem?-append_left [] ys i h = absurd (omega arith)
  get_elem?-append_left (x ∷ xs) ys zero h = refl
  get_elem?-append_left (x ∷ xs) ys (suc i) h = get_elem?-append_left xs ys i (omega arith)

  get_elem?-append_end : (xs : List A) (y : A) → get_elem? (xs ++ (y ∷ [])) (length xs) ≡ some y
  get_elem?-append_end [] y = refl
  get_elem?-append_end (x ∷ xs) y = get_elem?-append_end xs y

  pub length-reverse : (xs : List A) → length (reverse xs) ≡ length xs
  length-reverse [] = refl
  length-reverse (x ∷ xs) =
      rw (reverse-cons x xs) (omega (arith, length-append (reverse xs) (x ∷ []), length-reverse xs))

  pub get_elem?-reverse :
      (xs : List A) (i : ℕ)
      → i < length xs
      → get_elem? (reverse xs) i ≡ get_elem? xs (length xs - suc i)
  get_elem?-reverse [] i h = absurd (omega arith)
  get_elem?-reverse (x ∷ xs) i h = elim (dec_lt i (length xs)) [
    | yes p ↦
        let e : suc (length xs) - suc i ≡ suc (length xs - suc i) = omega arith in
        rw
          (
            reverse-cons x xs,
            get_elem?-append_left (reverse xs) (x ∷ []) i (omega (arith, length-reverse xs)),
            e,
          )
          (get_elem?-reverse xs i p)
    | no p ↦
        let last : i ≡ length (reverse xs) = omega (arith, length-reverse xs) in
        let first : suc (length xs) - suc i ≡ 0 = omega arith in
        rw (reverse-cons x xs, first, last) (get_elem?-append_end (reverse xs) x)
  ]

-- How often a number stands in a list.
abbrev pub count : ℕ → List ℕ → ℕ
count x [] = 0
count x (y ∷ ys) = if x == y then suc (count x ys) else count x ys

pub count-append : (x : ℕ) (xs ys : List ℕ) → count x (xs ++ ys) ≡ count x xs + count x ys
count-append x [] ys = omega arith
count-append x (y ∷ xs) ys = ground (arith, count-append x xs ys)

pub length-map {ℓ κ} :
    {A : Type ℓ} {B : Type κ} (f : A → B) (xs : List A) → length (map f xs) ≡ length xs
length-map f [] = refl
length-map f (x ∷ xs) = ap suc (length-map f xs)

pub List-cases {ℓ} :
    {A : Type ℓ} (xs : List A) → (xs ≡ []) ⊎ ((y : A) × (ys : List A) × (xs ≡ y ∷ ys))
List-cases [] = inl refl
List-cases (y ∷ ys) = inr (y, ys, refl)
